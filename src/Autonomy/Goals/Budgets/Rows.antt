-- ===== src/Autonomy/Goals/Budgets/Rows.antt =====
-- The budget of a goal row, and the calls that keep it row by row.
use hive_os.Base.{
  ℕ, ◌+◌, ◌≤◌, String, Bool, true, false, Option, none, some, List, [], ◌∷◌, ◌≡◌, refl, ap, arith,
  inl, inr, Bool-cases, Option-cases, All, if◌then◌else◌, str_eq,
}
use hive_os.Table.{select, count_where, update_where}
use hive_os.Table.Rows.{count_where-update_where}
use hive_os.Autonomy.Goals.{
  Status, Goal, Ledger, is_plannable, at_goal, update_goal, claim_goal, claimable, oldest,
  claim_planning, transition, resume,
}

-- The plan that a plannable goal is about to get.
abbrev pub next_plan : Goal → ℕ
next_plan g = if is_plannable g.status then 1 else 0

-- A goal that the operator resumed `k` times.
pub record IsBounded (k : ℕ) (g : Goal) : Type 0 where
  pub plans : g.plan_generation + next_plan g ≤ 1 + g.replan_count + k
  pub replans : g.replan_count ≤ g.max_replans
  pub budget : g.max_replans ≡ 2

pub record IsWellFormed (k : String → ℕ) (l : Ledger) : Type 0 where
  pub goals_bounded : All (λ (g : Goal). IsBounded (k g.goal_id) g) l.goals
  pub ids_unique : (id : String) → count_where (λ (g : Goal). str_eq g.goal_id id) l.goals ≤ 1

-- An UPDATE that keeps ids and adds to the bound what its call may add.
module _ (k k' : String → ℕ) (p : Goal → Bool) (f : Goal → Goal)
    (same_id : (g : Goal) → (f g).goal_id ≡ g.goal_id)
    (hit : (g : Goal) → p g ≡ true → IsBounded (k g.goal_id) g → IsBounded (k' (f g).goal_id) (f g))
    (more : (id : String) → k id ≤ k' id) where
  IsBounded-update :
      (gs : List Goal)
      → All (λ (g : Goal). IsBounded (k g.goal_id) g) gs
      → All (λ (g : Goal). IsBounded (k' g.goal_id) g) (update_where p f gs)
  unfolding update_where
  IsBounded-update [] h = tt
  IsBounded-update (g ∷ gs) h = elim (Bool-cases (p g)) [
    | inl yes_hit ↦ rw yes_hit (hit g yes_hit h.0, IsBounded-update gs h.1)
    | inr miss ↦ rw miss (widen g h.0, IsBounded-update gs h.1)
  ]
    where
      widen : (g : Goal) → IsBounded (k g.goal_id) g → IsBounded (k' g.goal_id) g
      widen g b = ground (arith, more g.goal_id)

  update-IsWellFormed :
      (l : Ledger)
      → IsWellFormed k l
      → IsWellFormed k' (record l { goals = update_where p f l.goals })
  update-IsWellFormed l h = record {
    goals_bounded = IsBounded-update l.goals h.goals_bounded;
    ids_unique = λ id. omega (
      arith,
      h.ids_unique id,
      count_where-update_where p (λ g. str_eq g.goal_id id) f l.goals
          (λ g. ap (λ i. str_eq i id) (same_id g)),
    );
  }

pub update_goal-ledger :
    (id : String) (p : Goal → Bool) (f : Goal → Goal) (l : Ledger)
    → (update_goal id p f l).0 ≡ record l { goals = update_where (at_goal id p) f l.goals }
unfolding update_goal
update_goal-ledger id p f l = ground arith

module _ (k : String → ℕ) (l : Ledger) (h : IsWellFormed k l) where
  -- One guarded UPDATE, with what the call may add to the goal's bound.
  update_goal-IsWellFormed :
      (id : String) (p : Goal → Bool) (f : Goal → Goal) (extra : ℕ)
      → ((g : Goal) → (f g).goal_id ≡ g.goal_id)
      → ((g : Goal)
          → p g ≡ true
          → IsBounded (k g.goal_id) g
          → IsBounded (k (f g).goal_id + extra) (f g))
      → IsWellFormed (λ i. k i + (if str_eq i id then extra else 0)) (update_goal id p f l).0
  update_goal-IsWellFormed id p f extra same_id step = rw update_goal-ledger (
      update-IsWellFormed k (λ i. k i + (if str_eq i id then extra else 0)) (at_goal id p) f same_id
        (λ g yes_hit b. ground (arith, step g (ground arith) b, same_id g)) (λ i. omega arith) l h)

  pub plain-IsWellFormed :
      (id : String) (p : Goal → Bool) (f : Goal → Goal)
      → ((g : Goal) → (f g).goal_id ≡ g.goal_id)
      → ((g : Goal) → p g ≡ true → IsBounded (k g.goal_id) g → IsBounded (k (f g).goal_id) (f g))
      → IsWellFormed k (update_goal id p f l).0
  plain-IsWellFormed id p f same_id step = rw update_goal-ledger (
      update-IsWellFormed k k (at_goal id p) f same_id (λ g yes_hit b. step g (ground arith) b)
        (λ i. omega arith) l h)

  claim_goal-IsWellFormed : (now : ℕ) (id : String) → IsWellFormed k (claim_goal now id l).0
  unfolding claim_goal
  claim_goal-IsWellFormed now id =
      plain-IsWellFormed id _ _ (λ g. refl) (λ g yes_hit b. ground arith)

  pub claim_planning-IsWellFormed :
      (now : ℕ) (id : Option String) → IsWellFormed k (claim_planning now id l).0
  unfolding claim_planning
  claim_planning-IsWellFormed now id = elim (Bool-cases (str_eq l.owner_machine_id "")) [
    | inl nameless ↦ rw nameless h
    | inr named ↦ rw named (choose id)
  ]
    where
      choose :
          (id : Option String)
          → IsWellFormed k
              (elim id as (λ _. Ledger × Option Goal) [
                | some i ↦ claim_goal now i l
                | none ↦ elim (oldest (select (claimable l.owner_machine_id) l.goals)) [
                  | none ↦ (l, none)
                  | some g ↦ claim_goal now g.goal_id l
                ]
              ]).0
      choose (some i) = claim_goal-IsWellFormed now i
      choose none = elim (Option-cases (oldest (select (claimable l.owner_machine_id) l.goals))) [
        | inl nothing ↦ rw nothing h
        | inr (g, found) ↦ rw found (claim_goal-IsWellFormed now g.goal_id)
      ]

  pub transition-IsWellFormed :
      (now : ℕ) (id : String) (from : Status → Bool) (to : Status) (reason : String)
      → is_plannable to ≡ false
      → IsWellFormed k (transition now id from to reason l).0
  unfolding transition
  transition-IsWellFormed now id from to reason quiet =
      plain-IsWellFormed id _ _ (λ g. refl) (λ g yes_hit b. ground arith)

  pub resume-IsWellFormed :
      (now : ℕ) (id : String)
      → IsWellFormed (λ i. k i + (if str_eq i id then 1 else 0)) (resume now id l).0
  unfolding resume
  resume-IsWellFormed now id =
      update_goal-IsWellFormed id _ _ 1 (λ g. refl) (λ g yes_hit b. ground arith)
