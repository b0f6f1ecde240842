-- ===== src/Autonomy/Commitments/Rounds.antt =====
-- What a round of the commitments does: `due_and_enqueue` in src/hive/autonomy/commitments.py.
use Prim.Native.String
use hive_os.Base.{if◌then◌else◌, ℕ, ◌≤◌, String, false, List, ◌++◌, ◌≡◌, str_eq}
use hive_os.Dict.{put, has}
use hive_os.Autonomy.Tasks.{text, TaskRecord}
use hive_os.Autonomy.Tasks.Issues.{decimal}
use hive_os.Autonomy.Tasks.Admission.Rounds.{IsQueued}
use hive_os.Autonomy.Commitments.{Commitment}

-- What a commitment needs so that a round can settle it.
pub record CanFire (r : Commitment) : Type 0 where
  pub allowed : str_eq r.task_kind "issue_work" ≡ false
  pub positive : 1 ≤ r.cadence_seconds

-- The row that an overdue commitment puts on the board.
abbrev pub IsTaskOf : String → ℕ → Commitment → TaskRecord → Type 0
IsTaskOf run id r t =
    IsQueued id r.task_kind
      (if has "description" r.payload
        then r.payload
        else put "description" (text r.description) r.payload)
      (String.◌++◌ "commitment:" (decimal r.id)) run t
