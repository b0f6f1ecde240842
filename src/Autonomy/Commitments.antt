-- ===== src/Autonomy/Commitments.antt =====
-- Recurring promises: src/hive/autonomy/commitments.py. A round enqueues tasks on the board; times and
-- cadences are milliseconds, `run` is what `current_run_id()` returns. The payload is the dict that the
-- stored JSON gives.
pub mod Rounds
use Prim.Native.String
use hive_os.Base.{
  ℕ, ◌+◌, String, Bool, true, false, Option, none, some, List, [], ◌∷◌, ◌++◌, ◌&&◌, leb, ltb, ◌==◌,
  if◌then◌else◌, map, take, max,
}
use hive_os.Dict.{put, has}
use hive_os.Table.{select, count_where, first_where, update_where, delete_where}
use hive_os.Table.Order.{order_by}
use hive_os.Autonomy.Tasks.{TaskBoard, Payload, Value, text, default_max_attempts}
use hive_os.Autonomy.Tasks.Enqueue.{Result, returned, raised, NewTask, enqueue}
use hive_os.Autonomy.Tasks.Issues.{decimal}

-- A row of hive_commitments.
pub record Commitment : Type 0 where
  pub id : ℕ
  pub description : String
  pub cadence_seconds : ℕ
  pub task_kind : String
  pub payload : Payload
  pub active : Bool
  pub last_fulfilled : Option ℕ
  pub created_ts : ℕ

pub record CommitmentBook : Type 0 where
  pub rows : List Commitment
  pub next_id : ℕ

unfoldable pub add : ℕ → String → ℕ → String → Payload → CommitmentBook → CommitmentBook × ℕ
add now description cadence task_kind payload c = (
  record {
    rows =
        c.rows
        ++ (record {
          id = c.next_id;
          description = description;
          cadence_seconds = cadence;
          task_kind = task_kind;
          payload = payload;
          active = true;
          last_fulfilled = none;
          created_ts = now;
        })
          ∷ [];
    next_id = c.next_id + 1;
  },
  c.next_id,
)

-- Never fulfilled, or now - last_fulfilled >= cadence.
abbrev pub past_cadence : ℕ → Commitment → Bool
past_cadence now r = elim r.last_fulfilled [
  | none ↦ true
  | some last ↦ leb (last + r.cadence_seconds) now
]

abbrev pub is_overdue : ℕ → Commitment → Bool
is_overdue now r = r.active && past_cadence now r

-- payload.setdefault("description", …)
abbrev pub task_of : String → Commitment → NewTask
task_of run r = record {
  kind = r.task_kind;
  payload =
      if has "description" r.payload
      then r.payload
      else put "description" (text r.description) r.payload;
  scheduled_for = 0;
  source = String.◌++◌ "commitment:" (decimal r.id);
  run_id = run;
  max_attempts = default_max_attempts;
  key = none;
}

abbrev pub fulfilled_at : ℕ → Commitment → Commitment
fulfilled_at now r = record r { last_fulfilled = some now }

-- The loop over the active rows, of which it takes those overdue.
unfoldable pub fire_all :
    ℕ
    → String
    → List Commitment
    → ℕ
    → CommitmentBook × TaskBoard
    → (CommitmentBook × TaskBoard) × Result ℕ
fire_all now run [] fired state = (state, returned fired)
fire_all now run (r ∷ rows) fired (c, b) =
    if past_cadence now r
    then elim (enqueue now (task_of run r) b) [
      | raised e ↦ ((c, b), raised e)
      | returned (b', id) ↦
          fire_all now run rows (fired + 1)
            (record c { rows = update_where (λ x. x.id == r.id) (fulfilled_at now) c.rows }, b')
    ]
    else fire_all now run rows fired (c, b)

unfoldable pub due_and_enqueue :
    ℕ → String → CommitmentBook × TaskBoard → (CommitmentBook × TaskBoard) × Result ℕ
unfolding fire_all
due_and_enqueue now run (c, b) = fire_all now run (select (λ r. r.active) c.rows) 0 (c, b)

unfoldable pub set_active : ℕ → Bool → CommitmentBook → CommitmentBook
set_active id active c = record c {
  rows = update_where (λ r. r.id == id) (λ r. record r { active = active }) c.rows;
}

unfoldable pub all : Bool → CommitmentBook → List Commitment
all active_only c = if active_only then select (λ r. r.active) c.rows else c.rows

unfoldable pub list_commitments : Bool → CommitmentBook → List Commitment
unfolding all
list_commitments active_only c = all active_only c

unfoldable pub get : ℕ → CommitmentBook → Option Commitment
get id c = first_where (λ r. r.id == id) c.rows

unfoldable pub remove : ℕ → CommitmentBook → CommitmentBook × Bool
remove id c = (
  record c { rows = delete_where (λ r. r.id == id) c.rows },
  ltb 0 (count_where (λ r. r.id == id) c.rows),
)

unfoldable pub reschedule : ℕ → ℕ → CommitmentBook → CommitmentBook × Bool
reschedule id cadence c = (
  record c {
    rows = update_where (λ r. r.id == id) (λ r. record r { cadence_seconds = cadence }) c.rows;
  },
  ltb 0 (count_where (λ r. r.id == id) c.rows),
)

unfoldable pub fulfill : ℕ → ℕ → CommitmentBook → CommitmentBook × Bool
fulfill now id c = (
  record c { rows = update_where (λ r. r.id == id) (fulfilled_at now) c.rows },
  ltb 0 (count_where (λ r. r.id == id) c.rows),
)

unfoldable pub overdue : ℕ → CommitmentBook → List Commitment
overdue now c = select (is_overdue now) c.rows

unfoldable pub count : Bool → CommitmentBook → ℕ
count active_only c = count_where (λ r. if active_only then r.active else true) c.rows

unfoldable pub active_names : CommitmentBook → List String
active_names c = map (λ r. r.description) (select (λ r. r.active) c.rows)

abbrev pub due_time : ℕ → Commitment → ℕ
due_time now r = elim r.last_fulfilled [ none ↦ now | some last ↦ last + r.cadence_seconds ]

unfoldable pub next_due_at : ℕ → ℕ → CommitmentBook → Option ℕ
next_due_at now id c = elim (first_where (λ r. r.id == id) c.rows) [
  | none ↦ none
  | some r ↦ if r.active then some (due_time now r) else none
]

-- result.sort keeps the order of equal times.
unfoldable pub upcoming : ℕ → ℕ → CommitmentBook → List Commitment
unfolding order_by
upcoming limit now c =
    take (max 1 limit)
      (order_by (λ r s. ltb (due_time now r) (due_time now s)) (select (λ r. r.active) c.rows))
