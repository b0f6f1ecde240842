-- ===== src/Autonomy/Goals/Terminal.antt =====
-- A completed goal stays as it is.
use hive_os.Base.{
  ℕ, ◌+◌, ◌≤◌, String, Bool, true, false, Option, some, List, [], ◌∷◌, ◌≡◌, refl, ap, sym, ◌∙◌, inl,
  inr, Bool-cases, Option-cases, arith, str_eq, str_eq_iff, ◌&&◌, leb, ◌==◌, map,
}
use hive_os.Table.{count_where, first_where}
use hive_os.Table.Rows.{
  first_where-hit, first_where-All, All-unique, first_where-append_old, altered,
  first_where-update_where,
}
use hive_os.Autonomy.Goals.{
  Status, completed, Goal, Ledger, at_goal, get_goal, is_replan_eligible, is_planning, update_goal,
  claimable, start_planning, claim_goal, claim_planning, begin_execution, start_execution,
  transition, begin_evaluation, complete, block, cancel, resume, replan, request_replan, create,
  new_goal, normalized, insert_links,
}
use hive_os.Autonomy.Goals.Histories.{
  resumes_in, resumes, new_ledger, Op, apply, run, create_op, claim_op, execute_op, evaluate_op,
  complete_op, replan_op, block_op, cancel_op, resume_op,
}
use hive_os.Autonomy.Goals.Budgets.{apply-IsWellFormed, run-IsWellFormed, new_ledger-IsWellFormed}
use hive_os.Autonomy.Goals.Budgets.Rows.{IsWellFormed, update_goal-ledger}
use hive_os.Autonomy.Goals.Budgets.Plans.{eligible}

module _ (id : String) (g : Goal) (closed : g.status ≡ completed) where
  abbrev Found : Ledger → Type 0
  Found l = get_goal id l ≡ some g

  update-Found :
      (other : String) (p : Goal → Bool) (f : Goal → Goal) (l : Ledger)
      → ((h : Goal) → (f h).goal_id ≡ h.goal_id)
      → p g ≡ false
      → Found l
      → Found (update_goal other p f l).0
  unfolding get_goal
  update-Found other p f l same_id idle found = rw update_goal-ledger (
      first_where-update_where (at_goal other p) (λ h. str_eq h.goal_id id) f l.goals
        (λ h. ap (λ i. str_eq i id) (same_id h))
      ∙ (ap (altered (at_goal other p) f) found ∙ ground arith))

  claim_goal-Found :
      (now : ℕ) (other : String) (l : Ledger) → Found l → Found (claim_goal now other l).0
  unfolding claim_goal claimable start_planning
  claim_goal-Found now other l found = update-Found other _ _ l (λ h. refl) (ground arith) found

  transition-Found :
      (now : ℕ) (other : String) (from : Status → Bool) (to : Status) (reason : String) (l : Ledger)
      → from completed ≡ false
      → Found l
      → Found (transition now other from to reason l).0
  unfolding transition
  transition-Found now other from to reason l idle found =
      update-Found other _ _ l (λ h. refl) (ap from closed ∙ idle) found

  claim_planning-Found :
      (now : ℕ) (named : Option String) (l : Ledger)
      → Found l
      → Found (claim_planning now named l).0
  unfolding claim_planning
  claim_planning-Found now named l found = grind (arith, claim_goal-Found now)

  create-Found :
      (now : ℕ) (other summary : String) (l : Ledger)
      → Found l
      → Found (create now other summary l).0
  unfolding create get_goal
  create-Found now other summary l found = ground (
    arith,
    first_where-append_old (λ (h : Goal). str_eq h.goal_id id) l.goals
        (new_goal now other summary l ∷ []) g found,
  )

  begin_execution-Found :
      (now : ℕ) (other : String) (tasks : List ℕ) (expected : Option ℕ) (l : Ledger)
      → Found l
      → Found (begin_execution now other tasks expected l).0
  unfolding begin_execution start_execution get_goal
  begin_execution-Found now other tasks expected l found =
      elim (Option-cases (first_where (at_goal other (λ h. is_planning h.status)) l.goals)) [
        | inl nothing ↦ ground arith
        | inr (h, hit) ↦
            let kept =
              update-Found other
                (λ x. is_planning x.status && (x.plan_generation == h.plan_generation))
                (start_execution now)
                (record l {
                  links = insert_links l.links (
                      map
                        (λ n. record {
                          goal_id = other;
                          plan_generation = h.plan_generation;
                          task_id = n;
                        })
                        (normalized tasks));
                })
                (λ x. refl) (ground arith) found in
            ground arith
      ]

  -- The only row with the goal's id is the goal itself.
  itself :
      (p : Goal → Bool) (l : Ledger) (h : Goal)
      → count_where (λ (x : Goal). str_eq x.goal_id id) l.goals ≤ 1
      → Found l
      → first_where (at_goal id p) l.goals ≡ some h
      → g ≡ h
  unfolding get_goal
  itself p l h unique found hit =
      first_where-All (λ x. str_eq x.goal_id id ≡ true → x ≡ h) (λ x. str_eq x.goal_id id) l.goals g
        (All-unique p (λ x. str_eq x.goal_id id) l.goals h unique hit) found
        (first_where-hit (λ x. str_eq x.goal_id id) l.goals g found)

  request_replan-Found :
      (now : ℕ) (other reason : String) (l : Ledger)
      → count_where (λ (x : Goal). str_eq x.goal_id id) l.goals ≤ 1
      → Found l
      → Found (request_replan now other reason l).0
  unfolding request_replan replan get_goal
  request_replan-Found now other reason l unique found =
      elim (Option-cases (first_where (at_goal other (λ h. is_replan_eligible h.status)) l.goals)) [
        | inl nothing ↦ ground arith
        | inr (h, hit) ↦ elim (Bool-cases (str_eq other id)) [
          | inl same ↦
              let e : other ≡ id = (str_eq_iff other id).0 same in
              let hit' : first_where (at_goal id (λ h. is_replan_eligible h.status)) l.goals
                  ≡ some h =
                ap (λ i. first_where (at_goal i (λ h. is_replan_eligible h.status)) l.goals) (sym e)
                ∙ hit in
              let good : is_replan_eligible h.status ≡ true = eligible id l.goals h hit' in
              let is_h : g ≡ h = itself (λ h. is_replan_eligible h.status) l h unique found hit' in
              let bad : is_replan_eligible g.status ≡ true =
                ap (λ (x : Goal). is_replan_eligible x.status) is_h ∙ good in
              absurd (ground arith)
          | inr differ ↦
              let at : str_eq g.goal_id id ≡ true =
                first_where-hit (λ x. str_eq x.goal_id id) l.goals g found in
              let miss : str_eq g.goal_id other ≡ false =
                ground (
                  arith,
                  str_eq_iff g.goal_id id,
                  str_eq_iff g.goal_id other,
                  str_eq_iff other id,
                ) in
              let f = replan now reason (leb h.max_replans h.replan_count) in
              let kept =
                first_where-update_where (λ x. str_eq x.goal_id other) (λ x. str_eq x.goal_id id) f
                  l.goals (λ x. refl) in
              ground arith
        ]
      ]

  apply-Found :
      (k : String → ℕ) (op : Op) (l : Ledger) → IsWellFormed k l → Found l → Found (apply op l)
  unfolding apply begin_evaluation complete block cancel resume
  apply-Found k (create_op now other summary) l h found = create-Found now other summary l found
  apply-Found k (claim_op now named) l h found = claim_planning-Found now named l found
  apply-Found k (execute_op now other tasks expected) l h found =
      begin_execution-Found now other tasks expected l found
  apply-Found k (evaluate_op now other) l h found = transition-Found now other _ _ _ l refl found
  apply-Found k (complete_op now other) l h found = transition-Found now other _ _ _ l refl found
  apply-Found k (replan_op now other reason) l h found =
      request_replan-Found now other reason l (h.ids_unique id) found
  apply-Found k (block_op now other reason) l h found =
      transition-Found now other _ _ _ l refl found
  apply-Found k (cancel_op now other) l h found = transition-Found now other _ _ _ l refl found
  apply-Found k (resume_op now other) l h found = transition-Found now other _ _ _ l refl found

  run-Found :
      (k : String → ℕ) (ops : List Op) (l : Ledger) → IsWellFormed k l → Found l → Found (run l ops)
  unfolding run
  run-Found k [] l h found = found
  run-Found k (op ∷ ops) l h found =
      run-Found (λ i. k i + resumes_in i op) ops (apply op l) (apply-IsWellFormed k op l h)
        (apply-Found k op l h found)

-- A goal that some history of an empty ledger has completed is found as it is, in every column, after
-- any further history, resumptions and replans included.
pub completed_stays :
    (host machine id : String) (before after : List Op) (g : Goal)
    → get_goal id (run (new_ledger host machine) before) ≡ some g
    → g.status ≡ completed
    → get_goal id (run (run (new_ledger host machine) before) after) ≡ some g
completed_stays host machine id before after g found closed =
    run-Found id g closed (λ i. 0 + resumes i before) after (run (new_ledger host machine) before)
      (run-IsWellFormed (λ i. 0) before (new_ledger host machine)
        (new_ledger-IsWellFormed host machine))
      found
