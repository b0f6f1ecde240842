-- ===== src/Autonomy/Goals/Budgets/Plans.antt =====
-- The calls that plan, replan and create goals keep their budgets.
use hive_os.Base.{
  ℕ, ◌≤◌, String, true, Option, some, List, [], ◌∷◌, ◌++◌, ◌≡◌, refl, ap, arith, inl, inr,
  Bool-cases, Option-cases, All, All-append, str_eq, str_eq_iff, leb, ltb, not, ◌&&◌, ◌||◌, map,
  ◌==◌, length,
}
use hive_os.Table.{count_where, first_where, update_where}
use hive_os.Table.Rows.{count_where-update_where, count_where-append, All-unique, first_where-hit}
use hive_os.Autonomy.Goals.{
  normalized, all_positive, insert_links, generation_ok, start_execution, Goal, Ledger, is_planning,
  is_replan_eligible, at_goal, new_goal, begin_execution, replan, request_replan, create,
}
use hive_os.Autonomy.Goals.Budgets.Rows.{IsBounded, IsWellFormed, plain-IsWellFormed}

-- The UPDATE of a replan reads the goal that the SELECT before it found: the only one with its id.
module _ (k : String → ℕ) (now : ℕ) (id reason : String) (g : Goal)
    (good : is_replan_eligible g.status ≡ true) where
  after : Goal → Goal
  after x = replan now reason (leb g.max_replans g.replan_count) x

  after-IsBounded :
      (x : Goal) → x ≡ g → IsBounded (k x.goal_id) x → IsBounded (k (after x).goal_id) (after x)
  unfolding after replan
  after-IsBounded x same b = ground (arith, same, ap (λ (y : Goal). y.status) same)

  same_id : (x : Goal) → (after x).goal_id ≡ x.goal_id
  unfolding after replan
  same_id x = refl

  replan-rows :
      (gs : List Goal)
      → All (λ (x : Goal). IsBounded (k x.goal_id) x) gs
      → All (λ (x : Goal). str_eq x.goal_id id ≡ true → x ≡ g) gs
      → All
          (λ (x : Goal). IsBounded (k x.goal_id) x)
          (update_where (λ x. str_eq x.goal_id id) after gs)
  unfolding update_where
  replan-rows [] bounded same = tt
  replan-rows (x ∷ gs) bounded same = elim (Bool-cases (str_eq x.goal_id id)) [
    | inl hit ↦ rw hit (after-IsBounded x (same.0 hit) bounded.0, replan-rows gs bounded.1 same.1)
    | inr miss ↦ rw miss (bounded.0, replan-rows gs bounded.1 same.1)
  ]

  replan-IsWellFormed :
      (l : Ledger)
      → IsWellFormed k l
      → first_where (at_goal id (λ g. is_replan_eligible g.status)) l.goals ≡ some g
      → IsWellFormed k (record l { goals = update_where (λ x. str_eq x.goal_id id) after l.goals })
  replan-IsWellFormed l h found = record {
    goals_bounded = replan-rows l.goals h.goals_bounded (
        All-unique (λ x. is_replan_eligible x.status) (λ x. str_eq x.goal_id id) l.goals g
          (h.ids_unique id) found);
    ids_unique = λ i. omega (
      arith,
      h.ids_unique i,
      count_where-update_where (λ x. str_eq x.goal_id id) (λ x. str_eq x.goal_id i) after l.goals
          (λ x. ap (λ j. str_eq j i) (same_id x)),
    );
  }

pub eligible :
    (id : String) (gs : List Goal) (g : Goal)
    → first_where (at_goal id (λ g. is_replan_eligible g.status)) gs ≡ some g
    → is_replan_eligible g.status ≡ true
eligible id gs g found =
    let q : (str_eq g.goal_id id && is_replan_eligible g.status) ≡ true =
      first_where-hit (at_goal id (λ g. is_replan_eligible g.status)) gs g found in
    ground arith

pub request_replan-IsWellFormed :
    (k : String → ℕ) (l : Ledger)
    → IsWellFormed k l
    → (now : ℕ) (id reason : String) → IsWellFormed k (request_replan now id reason l).0
unfolding request_replan after
request_replan-IsWellFormed k l h now id reason =
    elim (Option-cases (first_where (at_goal id (λ g. is_replan_eligible g.status)) l.goals)) [
      | inl nothing ↦ rw (nothing, request_replan) h
      | inr (g, found) ↦
          rw (found, request_replan)
            (replan-IsWellFormed k now id reason g (eligible id l.goals g found) l h found)
    ]

start-same_id : (now : ℕ) (g : Goal) → (start_execution now g).goal_id ≡ g.goal_id
unfolding start_execution
start-same_id now g = refl

start-IsBounded :
    (k : String → ℕ) (now n : ℕ) (g : Goal)
    → (is_planning g.status && (g.plan_generation == n)) ≡ true
    → IsBounded (k g.goal_id) g
    → IsBounded (k (start_execution now g).goal_id) (start_execution now g)
unfolding start_execution
start-IsBounded k now n g hit b = ground arith

pub begin_execution-IsWellFormed :
    (k : String → ℕ) (l : Ledger)
    → IsWellFormed k l
    → (now : ℕ) (id : String) (tasks : List ℕ) (expected : Option ℕ)
    → IsWellFormed k (begin_execution now id tasks expected l).0
unfolding begin_execution
begin_execution-IsWellFormed k l h now id tasks expected =
    elim (Bool-cases ((length (normalized tasks) == 0) || not (all_positive (normalized tasks)))) [
      | inl bad ↦ rw bad h
      | inr good ↦
          elim (Option-cases (first_where (at_goal id (λ g. is_planning g.status)) l.goals)) [
            | inl nothing ↦ rw (good, nothing) h
            | inr (g, found) ↦ elim (Bool-cases (not (generation_ok expected g.plan_generation))) [
              | inl fenced ↦ rw (good, found, fenced) h
              | inr admitted ↦
                  rw (good, found, admitted)
                    (plain-IsWellFormed k
                      (record l {
                        links = insert_links l.links (
                            map
                              (λ n. record {
                                goal_id = id;
                                plan_generation = g.plan_generation;
                                task_id = n;
                              })
                              (normalized tasks));
                      })
                      (record { goals_bounded = h.goals_bounded; ids_unique = h.ids_unique }) id
                      (λ x. is_planning x.status && (x.plan_generation == g.plan_generation))
                      (start_execution now) (start-same_id now)
                      (start-IsBounded k now g.plan_generation))
            ]
          ]
    ]

new_goal-IsBounded :
    (n now : ℕ) (id summary : String) (l : Ledger) → IsBounded n (new_goal now id summary l)
unfolding new_goal
new_goal-IsBounded n now id summary l = record {
  plans = omega arith;
  replans = omega arith;
  budget = refl;
}

fresh_unique :
    (l : Ledger) (now : ℕ) (id summary : String)
    → count_where (λ (g : Goal). str_eq g.goal_id id) l.goals ≡ 0
    → (i : String) → count_where (λ (g : Goal). str_eq g.goal_id i) l.goals ≤ 1
    → count_where (λ (g : Goal). str_eq g.goal_id i) (l.goals ++ new_goal now id summary l ∷ []) ≤ 1
unfolding new_goal count_where
fresh_unique l now id summary none_yet i one =
    rw count_where-append (elim (Bool-cases (str_eq id i)) [
      | inl same ↦
          let e : id ≡ i = (str_eq_iff id i).0 same in
          ground (arith, ap (λ j. count_where (λ (g : Goal). str_eq g.goal_id j) l.goals) e)
      | inr other ↦ ground arith
    ])

pub create-IsWellFormed :
    (k : String → ℕ) (l : Ledger)
    → IsWellFormed k l
    → (now : ℕ) (id summary : String) → IsWellFormed k (create now id summary l).0
unfolding create
create-IsWellFormed k l h now id summary = elim (Bool-cases (str_eq l.owner_machine_id "")) [
  | inl nameless ↦ rw nameless h
  | inr named ↦ elim (Bool-cases (str_eq summary "")) [
    | inl blank ↦ rw (named, blank) h
    | inr full ↦
        elim (Bool-cases (ltb 0 (count_where (λ (g : Goal). str_eq g.goal_id id) l.goals))) [
          | inl taken ↦ rw (named, full, taken) h
          | inr fresh ↦
              rw (named, full, fresh)
                (record {
                  goals_bounded =
                      All-append _ l.goals (new_goal now id summary l ∷ []) h.goals_bounded
                        (new_goal-IsBounded (k id) now id summary l, tt);
                  ids_unique = λ i. fresh_unique l now id summary (ground arith) i (h.ids_unique i);
                })
        ]
  ]
]
