-- ===== src/Autonomy/Tasks/Queries.antt =====
-- The queries of the board: src/hive/autonomy/tasks.py. The rows are in the order of their ids, so
-- ORDER BY id is the order of the list and ORDER BY id DESC its reverse.
use hive_os.Base.{
  ℕ, ◌+◌, ◌-◌, ◌≤◌, String, Bool, true, Option, none, some, List, [], ◌∷◌, ◌++◌, ◌≡◌, refl, leb,
  ◌&&◌, min, if◌then◌else◌, str_eq, length, take, get_or, arith, All, All-map, All-take,
  length-take_le,
}
use hive_os.Dict.{Dict, get, put}
use hive_os.Table.{select, count_where, first_where}
use hive_os.Table.Rows.{length-select, All-select_hit}
use hive_os.Autonomy.Tasks.{
  TaskState, pending, running, awaiting_approval, done, failed, dead, cancelled, state_eq,
  TaskRecord, TaskBoard,
}

unfoldable pub due : ℕ → ℕ → TaskBoard → List TaskRecord
due now limit b =
    take limit (select (λ t. state_eq t.state pending && leb t.scheduled_for now) b.rows)

unfoldable pub pending_count : TaskBoard → ℕ
pending_count b = count_where (λ t. state_eq t.state pending) b.rows

unfoldable pub running_count : TaskBoard → ℕ
running_count b = count_where (λ t. state_eq t.state running) b.rows

unfoldable pub failed_count : TaskBoard → ℕ
failed_count b = count_where (λ t. state_eq t.state failed) b.rows

unfoldable pub total_count : TaskBoard → ℕ
total_count b = length b.rows

unfoldable pub all : Option TaskState → TaskBoard → List TaskRecord
all none b = b.rows
all (some state) b = select (λ t. state_eq t.state state) b.rows

reverse : List TaskRecord → List TaskRecord
reverse [] = []
reverse (t ∷ ts) = reverse ts ++ t ∷ []

unfoldable pub recent_failures : ℕ → TaskBoard → List TaskRecord
unfolding reverse
recent_failures limit b = take limit (reverse (select (λ t. state_eq t.state failed) b.rows))

first : List TaskRecord → Option TaskRecord
first [] = none
first (t ∷ ts) = some t

unfoldable pub last_failed : TaskBoard → Option TaskRecord
unfolding first reverse
last_failed b = first (reverse (select (λ t. state_eq t.state failed) b.rows))

unfoldable pub oldest_pending : TaskBoard → Option TaskRecord
oldest_pending b = first_where (λ t. state_eq t.state pending) b.rows

-- An optional clause of `search`.
matches : Option String → String → Bool
matches none actual = true
matches (some wanted) actual = str_eq actual wanted

in_state : Option TaskState → TaskState → Bool
in_state none actual = true
in_state (some wanted) actual = state_eq actual wanted

unfoldable pub search :
    Option String
    → Option String
    → Option TaskState
    → Option String
    → ℕ
    → TaskBoard
    → List TaskRecord
unfolding reverse matches in_state
search kind source state run_id limit b = take limit (
    reverse (
      select
        (λ t.
          matches kind t.kind
          && (matches source t.source && (in_state state t.state && matches run_id t.run_id)))
        b.rows))

tally : List TaskRecord → Dict ℕ
tally [] = []
tally (t ∷ ts) = let rest = tally ts in put t.kind (get_or 0 (get t.kind rest) + 1) rest

unfoldable pub count_by_kind : TaskBoard → Dict ℕ
unfolding tally
count_by_kind b = tally b.rows

unfoldable pub pending_by_kind : TaskBoard → Dict ℕ
unfolding tally
pending_by_kind b = tally (select (λ t. state_eq t.state pending) b.rows)

-- MIN(created_ts)
least_created : List TaskRecord → Option ℕ
least_created [] = none
least_created (t ∷ ts) =
    let rest = least_created ts in
    elim rest [ none ↦ some t.created_ts | some u ↦ some (min t.created_ts u) ]

-- For a `now` that is not before the oldest pending row.
unfoldable pub oldest_pending_age : ℕ → TaskBoard → ℕ
unfolding least_created
oldest_pending_age now b = elim (least_created (select (λ t. state_eq t.state pending) b.rows)) [
  | none ↦ 0
  | some oldest ↦ now - oldest
]

-- The number of rows in a state.
abbrev in_count : TaskState → List TaskRecord → ℕ
in_count state rows = count_where (λ t. state_eq t.state state) rows

abbrev one_if : TaskState → TaskRecord → ℕ
one_if state t = if state_eq t.state state then 1 else 0

in_count-cons :
    (state : TaskState) (t : TaskRecord) (rows : List TaskRecord)
    → in_count state (t ∷ rows) ≡ one_if state t + in_count state rows
unfolding count_where
in_count-cons state t rows = ground arith

one_state :
    (s : TaskState)
    → (if state_eq s pending then 1 else 0)
        + (if state_eq s running then 1 else 0)
        + (if state_eq s failed then 1 else 0)
        + (if state_eq s awaiting_approval then 1 else 0)
        + (if state_eq s done then 1 else 0)
        + (if state_eq s dead then 1 else 0)
        + (if state_eq s cancelled then 1 else 0)
      ≡ 1
one_state pending = refl
one_state running = refl
one_state failed = refl
one_state awaiting_approval = refl
one_state done = refl
one_state dead = refl
one_state cancelled = refl

states_partition :
    (rows : List TaskRecord)
    → length rows
      ≡ in_count pending rows
        + in_count running rows
        + in_count failed rows
        + in_count awaiting_approval rows
        + in_count done rows
        + in_count dead rows
        + in_count cancelled rows
unfolding count_where
states_partition [] = refl
states_partition (t ∷ rows) = omega (
  arith,
  one_state t.state,
  states_partition rows,
  in_count-cons pending t rows,
  in_count-cons running t rows,
  in_count-cons failed t rows,
  in_count-cons awaiting_approval t rows,
  in_count-cons done t rows,
  in_count-cons dead t rows,
  in_count-cons cancelled t rows,
)

-- The board's counts and the rows that `all` gives for the four states without a count add up to the
-- total.
pub counts_add_up :
    (b : TaskBoard)
    → total_count b
      ≡ pending_count b
        + running_count b
        + failed_count b
        + length (all (some awaiting_approval) b)
        + length (all (some done) b)
        + length (all (some dead) b)
        + length (all (some cancelled) b)
unfolding total_count pending_count running_count failed_count all
counts_add_up b = omega (
  arith,
  states_partition b.rows,
  length-select (λ t. state_eq t.state awaiting_approval) b.rows,
  length-select (λ t. state_eq t.state done) b.rows,
  length-select (λ t. state_eq t.state dead) b.rows,
  length-select (λ t. state_eq t.state cancelled) b.rows,
)

-- What `due` returns is pending, is scheduled for no later than `now`, and is no longer than asked.
pub due_sound :
    (now limit : ℕ) (b : TaskBoard)
    → (length (due now limit b) ≤ limit)
      × All (λ t. (state_eq t.state pending ≡ true) × (t.scheduled_for ≤ now)) (due now limit b)
unfolding due
due_sound now limit b = (
  length-take_le limit (select (λ t. state_eq t.state pending && leb t.scheduled_for now) b.rows),
  All-take _ limit _ (
      All-map _ _ (select (λ t. state_eq t.state pending && leb t.scheduled_for now) b.rows)
        (λ t hit. (ground arith, ground arith))
        (All-select_hit (λ t. state_eq t.state pending && leb t.scheduled_for now) b.rows)),
)
