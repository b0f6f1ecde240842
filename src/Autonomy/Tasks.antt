-- ===== src/Autonomy/Tasks.antt =====
-- The durable work board: src/hive/autonomy/tasks.py. This file has its tables; the operations and
-- their proofs are in the modules below. Timestamps (floats, in seconds) are whole milliseconds.
pub mod Enqueue
pub mod Issues
pub mod Lifecycle
pub mod Recovery
pub mod Operations
pub mod RowRules
pub mod Changes
pub mod Invariant
pub mod Fencing
pub mod Admission
pub mod Outcomes
pub mod Leases
pub mod Queries
use hive_os.Base.{
  ℕ, ◌+◌, ◌*◌, String, Bool, true, false, Option, none, some, List, [], ◌∷◌, ◌&&◌, min, ltb, ◌==◌,
  if◌then◌else◌,
}
use hive_os.Dict.{Dict}
use hive_os.Table.{count_where, first_where, update_where}

pub data TaskState : Type 0 where
  pending running awaiting_approval done failed dead cancelled : TaskState

-- WHERE state=?
abbrev pub state_eq : TaskState → TaskState → Bool
state_eq pending pending = true
state_eq running running = true
state_eq awaiting_approval awaiting_approval = true
state_eq done done = true
state_eq failed failed = true
state_eq dead dead = true
state_eq cancelled cancelled = true
state_eq _ _ = false

-- A JSON value of a payload; `other` holds the serialized form of any further value.
pub data Value : Type 0 where
  text : String → Value
  number : ℕ → Value
  other : String → Value

abbrev pub Payload : Type 0
Payload = Dict Value

abbrev pub seconds : ℕ → ℕ
seconds n = n * 1000

abbrev pub default_max_attempts : ℕ
default_max_attempts = 3

abbrev pub max_rate_limit_deferrals : ℕ
max_rate_limit_deferrals = 5

abbrev pub default_stall_timeout : ℕ
default_stall_timeout = seconds 300

-- A row of hive_tasks.
pub record TaskRecord : Type 0 where
  pub id : ℕ
  pub kind : String
  pub payload : Payload
  pub state : TaskState
  pub created_ts : ℕ
  pub updated_ts : ℕ
  pub scheduled_for : ℕ
  pub source : String
  pub attempts : ℕ
  pub run_id : String
  pub last_error : Option String
  pub max_attempts : ℕ
  pub rate_limit_count : ℕ
  pub stall_count : ℕ
  pub idempotency_key : Option String

-- A row of hive_issue_pickups.
pub record IssuePickup : Type 0 where
  pub issue_key : String
  pub task_id : ℕ
  pub picked_ts : ℕ

-- The two tables, and the next key that AUTOINCREMENT gives.
pub record TaskBoard : Type 0 where
  pub rows : List TaskRecord
  pub next_id : ℕ
  pub pickups : List IssuePickup

unfoldable pub empty_board : TaskBoard
empty_board = record { rows = []; next_id = 1; pickups = [] }

abbrev pub task_id_of : TaskRecord → ℕ
task_id_of t = t.id

-- `(? IS NULL OR attempts=?)`: the fence of an optional expected attempt.
abbrev pub fence : Option ℕ → TaskRecord → Bool
fence none t = true
fence (some attempt) t = t.attempts == attempt

-- `UPDATE hive_tasks SET f WHERE id=? AND g`, commit, `return cur.rowcount > 0`.
unfoldable pub update_task :
    ℕ → (TaskRecord → Bool) → (TaskRecord → TaskRecord) → TaskBoard → TaskBoard × Bool
update_task task_id g f b =
    let hit = λ (t : TaskRecord). (t.id == task_id) && g t in
    (record b { rows = update_where hit f b.rows }, ltb 0 (count_where hit b.rows))

-- `get`: SELECT * FROM hive_tasks WHERE id=?
unfoldable pub get_task : ℕ → TaskBoard → Option TaskRecord
get_task task_id b = first_where (λ t. t.id == task_id) b.rows
