-- ===== src/Autonomy/Tasks/Changes.antt =====
-- What a call may do to the board, as a step relation: every operation is a sequence of these
-- changes, so that what they all keep is proved once.
pub mod Claims
pub mod Entries
pub mod Histories
use hive_os.Base.{
  ℕ, ◌+◌, ◌≤◌, ◌<◌, String, Bool, true, false, List, [], ◌∷◌, ◌++◌, ◌≡◌, refl, ◌&&◌, ◌==◌,
  if◌then◌else◌, arith,
}
use hive_os.Table.{update_where, delete_where}
use hive_os.Autonomy.Tasks.{running, TaskRecord, IssuePickup, TaskBoard, task_id_of, update_task}
use hive_os.Autonomy.Tasks.Enqueue.{NewTask, new_row, has_key, conflicts}

-- The budgets of one task.
pub record RowOk (t : TaskRecord) : Type 0 where
  pub within_budget : t.attempts ≤ t.max_attempts + t.rate_limit_count
  pub deferrals_claimed : t.rate_limit_count ≤ t.attempts
  pub running_claimed : t.state ≡ running → t.rate_limit_count < t.attempts
  pub budget_given : 1 ≤ t.max_attempts

-- An INSERT of a task needs a free key and a budget, an UPDATE leaves ids, keys and the fencing
-- order alone, and a pickup names a task that was inserted before it.
pub data Change : TaskBoard → TaskBoard → Type 0 where
  same : (b : TaskBoard) → Change b b
  followed : {b c d : TaskBoard} → Change b c → Change c d → Change b d
  updated :
      (p : TaskRecord → Bool) (f : TaskRecord → TaskRecord)
      → ((t : TaskRecord) → (f t).id ≡ t.id)
      → ((key : String) (t : TaskRecord) → has_key key (f t) ≡ has_key key t)
      → ((t : TaskRecord) → t.attempts ≤ (f t).attempts)
      → ((t : TaskRecord) → p t ≡ true → RowOk t → RowOk (f t))
      → (b : TaskBoard) → Change b (record b { rows = update_where p f b.rows })
  deleted :
      (p : TaskRecord → Bool) (b : TaskBoard) → Change b (record b { rows = delete_where p b.rows })
  inserted :
      (now : ℕ) (n : NewTask) (b : TaskBoard)
      → conflicts n.key b.rows ≡ false
      → 1 ≤ n.max_attempts
      → Change b
          (record b { rows = b.rows ++ new_row now b.next_id n ∷ []; next_id = b.next_id + 1 })
  picked_up :
      (p : IssuePickup) (b : TaskBoard)
      → p.task_id < b.next_id
      → Change b (record b { pickups = b.pickups ++ p ∷ [] })

pub update_task-Change :
    (task_id : ℕ) (g : TaskRecord → Bool) (f : TaskRecord → TaskRecord)
    → ((t : TaskRecord) → (f t).id ≡ t.id)
    → ((key : String) (t : TaskRecord) → has_key key (f t) ≡ has_key key t)
    → ((t : TaskRecord) → t.attempts ≤ (f t).attempts)
    → ((t : TaskRecord) → g t ≡ true → RowOk t → RowOk (f t))
    → (b : TaskBoard) → Change b (update_task task_id g f b).0
unfolding update_task
update_task-Change task_id g f same_id same_key tokens keep b =
    updated (λ t. (t.id == task_id) && g t) f same_id same_key tokens
      (λ t e ok. keep t (ground arith) ok) b

pub if-Change :
    {A : Type 0} (b : TaskBoard) (x : Bool) (l r : TaskBoard × A)
    → Change b l.0
    → Change b r.0
    → Change b (if x then l else r).0
if-Change b true l r h k = h
if-Change b false l r h k = k
