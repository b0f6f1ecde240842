-- ===== src/Autonomy/Goals/Budgets.antt =====
-- A goal is planned a bounded number of times.
pub mod Rows
pub mod Plans
use hive_os.Base.{
  ℕ, ◌+◌, ◌≤◌, String, Bool, true, false, Option, none, some, List, [], ◌∷◌, ◌++◌, ◌≡◌, refl, ap,
  arith, inl, inr, Bool-cases, Option-cases, All, All-append, All-map, if◌then◌else◌, str_eq,
  str_eq_iff, leb, ltb, not, ◌&&◌, ◌||◌, map, ◌==◌, length,
}
use hive_os.Table.{select, count_where, first_where, update_where}
use hive_os.Table.Rows.{count_where-update_where, count_where-append, All-unique, first_where-hit}
use hive_os.Autonomy.Goals.{
  normalized, all_positive, insert_links, generation_ok, start_execution, Status, evaluating,
  completed, blocked, cancelled, is_executing, is_evaluating, is_active, is_cancellable, Goal,
  Ledger, is_planning, is_plannable, is_replan_eligible, at_goal, new_goal, update_goal, claim_goal,
  claimable, oldest, claim_planning, begin_execution, transition, begin_evaluation, complete, block,
  cancel, resume, replan, request_replan, create,
}
use hive_os.Autonomy.Goals.Histories.{
  Op, create_op, claim_op, execute_op, evaluate_op, complete_op, replan_op, block_op, cancel_op,
  resume_op, apply, run, resumes_in, resumes, new_ledger,
}
use hive_os.Autonomy.Goals.Budgets.Rows.{
  next_plan, IsBounded, IsWellFormed, claim_planning-IsWellFormed, plain-IsWellFormed,
  resume-IsWellFormed, transition-IsWellFormed,
}
use hive_os.Autonomy.Goals.Budgets.Plans.{
  begin_execution-IsWellFormed, create-IsWellFormed, request_replan-IsWellFormed,
}

widen :
    (k k' : String → ℕ) (l : Ledger)
    → ((i : String) → k i ≤ k' i)
    → IsWellFormed k l
    → IsWellFormed k' l
widen k k' l more h = record {
  goals_bounded =
      All-map _ _ l.goals
        (λ g b. record {
          plans = omega (arith, more g.goal_id, b.plans);
          replans = b.replans;
          budget = b.budget;
        })
        h.goals_bounded;
  ids_unique = h.ids_unique;
}

plain : (k : String → ℕ) (l : Ledger) → IsWellFormed k l → IsWellFormed (λ i. k i + 0) l
plain k l h = widen k (λ i. k i + 0) l (λ i. omega arith) h

pub apply-IsWellFormed :
    (k : String → ℕ) (op : Op) (l : Ledger)
    → IsWellFormed k l
    → IsWellFormed (λ i. k i + resumes_in i op) (apply op l)
unfolding apply begin_evaluation complete block cancel
apply-IsWellFormed k (create_op now id summary) l h =
    plain k _ (create-IsWellFormed k l h now id summary)
apply-IsWellFormed k (claim_op now id) l h = plain k _ (claim_planning-IsWellFormed k l h now id)
apply-IsWellFormed k (execute_op now id tasks expected) l h =
    plain k _ (begin_execution-IsWellFormed k l h now id tasks expected)
apply-IsWellFormed k (evaluate_op now id) l h =
    plain k _ (transition-IsWellFormed k l h now id is_executing evaluating "" refl)
apply-IsWellFormed k (complete_op now id) l h =
    plain k _ (transition-IsWellFormed k l h now id is_evaluating completed "" refl)
apply-IsWellFormed k (replan_op now id reason) l h =
    plain k _ (request_replan-IsWellFormed k l h now id reason)
apply-IsWellFormed k (block_op now id reason) l h =
    plain k _ (transition-IsWellFormed k l h now id is_active blocked reason refl)
apply-IsWellFormed k (cancel_op now id) l h =
    plain k _ (transition-IsWellFormed k l h now id is_cancellable cancelled "" refl)
apply-IsWellFormed k (resume_op now id) l h = resume-IsWellFormed k l h now id

pub run-IsWellFormed :
    (k : String → ℕ) (ops : List Op) (l : Ledger)
    → IsWellFormed k l
    → IsWellFormed (λ i. k i + resumes i ops) (run l ops)
unfolding run resumes
run-IsWellFormed k [] l h = widen k _ l (λ i. omega arith) h
run-IsWellFormed k (op ∷ ops) l h =
    widen _ _ (run (apply op l) ops) (λ i. omega arith)
      (run-IsWellFormed (λ i. k i + resumes_in i op) ops (apply op l) (apply-IsWellFormed k op l h))

pub new_ledger-IsWellFormed :
    (host machine : String) → IsWellFormed (λ i. 0) (new_ledger host machine)
unfolding new_ledger count_where
new_ledger-IsWellFormed host machine = record { goals_bounded = tt; ids_unique = λ i. omega arith }

-- Whatever calls an empty ledger takes, each goal in it was planned at most three times plus once
-- for each call that asked to resume it, and was replanned at most twice.
pub generation_bounded :
    (host machine : String) (ops : List Op)
    → All
        (λ (g : Goal). (g.plan_generation ≤ 3 + resumes g.goal_id ops) × (g.replan_count ≤ 2))
        (run (new_ledger host machine) ops).goals
generation_bounded host machine ops =
    let h =
      run-IsWellFormed (λ i. 0) ops (new_ledger host machine)
        (new_ledger-IsWellFormed host machine) in
    All-map _ _ (run (new_ledger host machine) ops).goals
      (λ g b. (omega (arith, b.plans, b.replans, b.budget), omega (arith, b.replans, b.budget)))
      h.goals_bounded
