-- ===== src/Autonomy/Goals.antt =====
-- The durable goal ledger: src/hive/autonomy/goals.py. Its tables are lists of rows; a call returns
-- the ledger that its transaction leaves beside its result. Digests and redaction (`_safe_text`),
-- the uuid of a new goal and the clock are arguments.
pub mod Histories
pub mod Budgets
pub mod Terminal
use Prim.Native.Nat.{Ordering}
use Prim.Native.String.{compare}
use hive_os.Base.{
  ℕ, ◌+◌, String, Bool, true, false, not, Option, none, some, List, [], ◌∷◌, ◌++◌, ◌&&◌, ◌||◌, ltb,
  leb, ◌==◌, if◌then◌else◌, str_eq, map, length, insert_sorted,
}
use hive_os.Table.{select, count_where, first_where, update_where}

-- `opened` is OPEN.
pub data Status : Type 0 where
  opened planning executing evaluating replanning completed blocked cancelled : Status

-- A row of hive_goals.
pub record Goal : Type 0 where
  pub goal_id : String
  pub summary : String
  pub status : Status
  pub plan_generation : ℕ
  pub replan_count : ℕ
  pub max_replans : ℕ
  pub last_reason : String
  pub owner_host : String
  pub owner_machine_id : String
  pub created_ts : ℕ
  pub updated_ts : ℕ

-- A row of hive_goal_tasks.
pub record GoalTask : Type 0 where
  pub goal_id : String
  pub plan_generation : ℕ
  pub task_id : ℕ

pub record Ledger : Type 0 where
  pub goals : List Goal
  pub links : List GoalTask
  pub owner_host : String
  pub owner_machine_id : String

pub data Error : Type 0 where
  runtime_error value_error integrity_error : Error

pub data Result {ℓ} (A : Type ℓ) : Type ℓ where
  returned : A → Result A
  raised : Error → Result A

abbrev pub default_max_replans : ℕ
default_max_replans = 2

abbrev pub is_planning : Status → Bool
is_planning planning = true
is_planning _ = false

abbrev pub is_executing : Status → Bool
is_executing executing = true
is_executing _ = false

abbrev pub is_evaluating : Status → Bool
is_evaluating evaluating = true
is_evaluating _ = false

-- PLANNABLE_STATUSES
abbrev pub is_plannable : Status → Bool
is_plannable opened = true
is_plannable replanning = true
is_plannable _ = false

-- ACTIVE_STATUSES
abbrev pub is_active : Status → Bool
is_active completed = false
is_active blocked = false
is_active cancelled = false
is_active _ = true

-- REPLAN_ELIGIBLE_STATUSES
abbrev pub is_replan_eligible : Status → Bool
is_replan_eligible planning = true
is_replan_eligible executing = true
is_replan_eligible evaluating = true
is_replan_eligible _ = false

-- {OPEN, PLANNING, REPLANNING}
abbrev pub is_cancellable : Status → Bool
is_cancellable opened = true
is_cancellable planning = true
is_cancellable replanning = true
is_cancellable _ = false

-- {BLOCKED, CANCELLED}
abbrev pub is_resumable : Status → Bool
is_resumable blocked = true
is_resumable cancelled = true
is_resumable _ = false

-- WHERE goal_id=? AND …
abbrev pub at_goal : String → (Goal → Bool) → Goal → Bool
at_goal goal_id p g = str_eq g.goal_id goal_id && p g

unfoldable pub get_goal : String → Ledger → Option Goal
get_goal goal_id l = first_where (λ g. str_eq g.goal_id goal_id) l.goals

unfoldable pub new_goal : ℕ → String → String → Ledger → Goal
new_goal now goal_id summary l = record {
  goal_id = goal_id;
  summary = summary;
  status = opened;
  plan_generation = 0;
  replan_count = 0;
  max_replans = default_max_replans;
  last_reason = "";
  owner_host = l.owner_host;
  owner_machine_id = l.owner_machine_id;
  created_ts = now;
  updated_ts = now;
}

-- UPDATE hive_goals SET f WHERE p; the row's goal is returned when one row changed.
unfoldable pub update_goal : String → (Goal → Bool) → (Goal → Goal) → Ledger → Ledger × Option Goal
unfolding get_goal
update_goal goal_id p f l =
    let l' : Ledger = record l { goals = update_where (at_goal goal_id p) f l.goals } in
    if count_where (at_goal goal_id p) l.goals == 1 then (l', get_goal goal_id l') else (l', none)

-- ORDER BY created_ts, goal_id
precedes : Goal → Goal → Bool
precedes g h =
    ltb g.created_ts h.created_ts
    || ((g.created_ts == h.created_ts)
        && elim (compare g.goal_id h.goal_id) [ Ordering.gt ↦ false | _ ↦ true ])

first_of : Goal → List Goal → Goal
unfolding precedes
first_of g [] = g
first_of g (h ∷ hs) = first_of (if precedes g h then g else h) hs

unfoldable pub oldest : List Goal → Option Goal
unfolding first_of
oldest [] = none
oldest (g ∷ gs) = some (first_of g gs)

unfoldable pub claimable : String → Goal → Bool
claimable machine g = str_eq g.owner_machine_id machine && is_plannable g.status

unfoldable pub start_planning : ℕ → Goal → Goal
start_planning now g = record g {
  status = planning;
  plan_generation = g.plan_generation + 1;
  updated_ts = now;
}

-- `claim_planning` of one goal; of the oldest claimable goal when none is named.
unfoldable pub claim_goal : ℕ → String → Ledger → Ledger × Option Goal
unfolding claimable start_planning
claim_goal now goal_id l = update_goal goal_id (claimable l.owner_machine_id) (start_planning now) l

unfoldable pub claim_planning : ℕ → Option String → Ledger → Ledger × Option Goal
unfolding claim_goal oldest
claim_planning now goal_id l = if str_eq l.owner_machine_id "" then (l, none) else elim goal_id [
  | some id ↦ claim_goal now id l
  | none ↦ elim (oldest (select (claimable l.owner_machine_id) l.goals)) [
    | none ↦ (l, none)
    | some g ↦ claim_goal now g.goal_id l
  ]
]

-- tuple(sorted({...}))
unfoldable pub normalized : List ℕ → List ℕ
normalized [] = []
normalized (n ∷ ns) = insert_sorted n (normalized ns)

unfoldable pub all_positive : List ℕ → Bool
all_positive [] = true
all_positive (n ∷ ns) = ltb 0 n && all_positive ns

same_link : GoalTask → GoalTask → Bool
same_link k m =
    str_eq k.goal_id m.goal_id
    && ((k.plan_generation == m.plan_generation) && (k.task_id == m.task_id))

-- INSERT OR IGNORE INTO hive_goal_tasks
unfoldable pub insert_links : List GoalTask → List GoalTask → List GoalTask
unfolding same_link
insert_links links [] = links
insert_links links (k ∷ ks) =
    insert_links (if ltb 0 (count_where (same_link k) links) then links else links ++ k ∷ []) ks

abbrev pub generation_ok : Option ℕ → ℕ → Bool
generation_ok none generation = true
generation_ok (some expected) generation = generation == expected

unfoldable pub start_execution : ℕ → Goal → Goal
start_execution now g = record g { status = executing; updated_ts = now; last_reason = "" }

unfoldable pub begin_execution :
    ℕ → String → List ℕ → Option ℕ → Ledger → Ledger × Result (Option Goal)
unfolding normalized all_positive insert_links start_execution
begin_execution now goal_id task_ids expected l =
    let ids = normalized task_ids in
    if (length ids == 0) || not (all_positive ids)
    then (l, raised value_error)
    else elim (first_where (at_goal goal_id (λ g. is_planning g.status)) l.goals) [
      | none ↦ (l, returned none)
      | some g ↦
          if not (generation_ok expected g.plan_generation)
          then (l, returned none)
          else (let linked : Ledger = record l {
            links = insert_links l.links (
                map
                  (λ n. record {
                    goal_id = goal_id;
                    plan_generation = g.plan_generation;
                    task_id = n;
                  })
                  ids);
          } in
              let (l', row) =
                update_goal goal_id
                  (λ h. is_planning h.status && (h.plan_generation == g.plan_generation))
                  (start_execution now) linked in
              (l', returned row))
    ]

-- `_transition`; `reason` is already the digest of `_safe_text`.
unfoldable pub transition :
    ℕ → String → (Status → Bool) → Status → String → Ledger → Ledger × Option Goal
transition now goal_id from to reason l =
    update_goal goal_id (λ g. from g.status)
      (λ g. record g { status = to; last_reason = reason; updated_ts = now }) l

unfoldable pub begin_evaluation : ℕ → String → Ledger → Ledger × Option Goal
unfolding transition
begin_evaluation now goal_id l = transition now goal_id is_executing evaluating "" l

unfoldable pub complete : ℕ → String → Ledger → Ledger × Option Goal
unfolding transition
complete now goal_id l = transition now goal_id is_evaluating completed "" l

unfoldable pub block : ℕ → String → String → Ledger → Ledger × Option Goal
unfolding transition
block now goal_id reason l = transition now goal_id is_active blocked reason l

unfoldable pub cancel : ℕ → String → Ledger → Ledger × Option Goal
unfolding transition
cancel now goal_id l = transition now goal_id is_cancellable cancelled "" l

unfoldable pub resume : ℕ → String → Ledger → Ledger × Option Goal
unfolding transition
resume now goal_id l = transition now goal_id is_resumable opened "" l

unfoldable pub replan : ℕ → String → Bool → Goal → Goal
replan now reason exhausted g = record g {
  status = if exhausted then blocked else replanning;
  replan_count = g.replan_count + (if exhausted then 0 else 1);
  last_reason = reason;
  updated_ts = now;
}

-- The UPDATE of a replan has no guard of its own: the SELECT before it is in the transaction.
unfoldable pub request_replan : ℕ → String → String → Ledger → Ledger × Option Goal
unfolding replan get_goal
request_replan now goal_id reason l =
    elim (first_where (at_goal goal_id (λ g. is_replan_eligible g.status)) l.goals) [
      | none ↦ (l, none)
      | some g ↦
          let l' : Ledger = record l {
            goals =
                update_where (λ h. str_eq h.goal_id goal_id)
                  (replan now reason (leb g.max_replans g.replan_count)) l.goals;
          } in
          (l', get_goal goal_id l')
    ]

-- `create`: the id is a new uuid, and `summary` the digest of `_safe_text`.
unfoldable pub create : ℕ → String → String → Ledger → Ledger × Result Goal
unfolding new_goal
create now goal_id summary l =
    if str_eq l.owner_machine_id ""
    then (l, raised runtime_error)
    else if str_eq summary ""
    then (l, raised value_error)
    else if ltb 0 (count_where (λ g. str_eq g.goal_id goal_id) l.goals)
    then (l, raised integrity_error)
    else (let g = new_goal now goal_id summary l in
        (record l { goals = l.goals ++ g ∷ [] }, returned g))

unfoldable pub task_references : String → Option ℕ → Ledger → List ℕ
unfolding normalized get_goal
task_references goal_id generation l =
    let of = λ (n : ℕ). normalized (
      map (λ (k : GoalTask). k.task_id)
        (select (λ k. str_eq k.goal_id goal_id && (k.plan_generation == n)) l.links)) in
    elim generation [
      | some n ↦ of n
      | none ↦ elim (get_goal goal_id l) [ none ↦ [] | some g ↦ of g.plan_generation ]
    ]
