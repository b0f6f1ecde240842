-- ===== src/Autonomy/Tasks/Admission.antt =====
-- Work enters once: duplicate keys and batches.
pub mod Batches
pub mod Rounds
pub mod Pickups
use hive_os.Base.{
  ℕ, zero, suc, ◌<◌, ◌⊎◌, String, Bool, Option, none, some, List, ◌≡◌, refl, ◌&&◌, ◌==◌,
  if◌then◌else◌, length, All, map, is_some,
}
use mathlib.Core.List.{append_assoc}
use hive_os.Table.{first_where}
use hive_os.Table.Rows.{first_where-hit, count_where-append}
use hive_os.Autonomy.Tasks.{pending, TaskRecord, TaskBoard}
use hive_os.Autonomy.Tasks.Enqueue.{
  Error, value_error, Result, has_key, Entry, entry_task, insert_entry, insert_entries,
  enqueue_many,
}
use hive_os.Autonomy.Tasks.Changes.Entries.{Result-cases, insert_task_returned}

-- The row that carries a key.
abbrev CarriedBy : String → ℕ → TaskBoard → Type 0
CarriedBy key id b = (t : TaskRecord) × (first_where (has_key key) b.rows ≡ some t) × (t.id ≡ id)
