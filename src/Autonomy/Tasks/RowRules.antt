-- ===== src/Autonomy/Tasks/RowRules.antt =====
-- An UPDATE of one task, seen from the task: what it does at its key and at every other key.
use hive_os.Base.{
  ℕ, Bool, true, false, Option, none, some, ◌≡◌, ◌≢◌, ap, ◌∙◌, ◌&&◌, ◌==◌, arith, Option-cases, inl,
  inr,
}
use hive_os.Table.Rows.{first_where-hit}
use hive_os.Table.Keyed.{Rising, alter, by_id-update_where, count_where-at_id}
use hive_os.Autonomy.Tasks.{TaskRecord, TaskBoard, task_id_of, update_task, get_task}

abbrev pub verdict : (TaskRecord → Bool) → Option TaskRecord → Bool
verdict g none = false
verdict g (some t) = g t

module _ (task_id : ℕ) (g : TaskRecord → Bool) (f : TaskRecord → TaskRecord)
    (same : (t : TaskRecord) → (f t).id ≡ t.id) (b : TaskBoard) where
  -- The row at any key after the update.
  pub get_task-update_task :
      (n : ℕ)
      → get_task n (update_task task_id g f b).0
        ≡ alter task_id_of (λ t. (t.id == task_id) && g t) f (get_task n b)
  unfolding update_task get_task
  get_task-update_task n = by_id-update_where task_id_of f same n _ b.rows

  -- The returned flag is the guard at the task's row.
  pub update_task_flag :
      Rising task_id_of 1 b.rows b.next_id
      → (update_task task_id g f b).1 ≡ verdict g (get_task task_id b)
  unfolding update_task get_task
  update_task_flag h = ground (arith, count_where-at_id task_id_of 1 b.next_id task_id g b.rows h)

  -- The row at the task itself, where the guard holds.
  pub get_task-update_hit :
      (t : TaskRecord)
      → get_task task_id b ≡ some t
      → g t ≡ true
      → get_task task_id (update_task task_id g f b).0 ≡ some (f t)
  unfolding get_task
  get_task-update_hit t found ready =
      let its_id : (t.id == task_id) ≡ true =
        first_where-hit (λ t. t.id == task_id) b.rows t found in
      get_task-update_task task_id
      ∙ ap (alter task_id_of (λ t. (t.id == task_id) && g t) f) found
      ∙ rw (its_id, ready)

  -- Every other row stays as it is.
  pub get_task-update_other :
      (n : ℕ) → n ≢ task_id → get_task n (update_task task_id g f b).0 ≡ get_task n b
  unfolding get_task
  get_task-update_other n other = elim (Option-cases (get_task n b)) [
    | inl gone ↦ get_task-update_task n ∙ rw gone
    | inr (t, found) ↦
        let its_id : (t.id == n) ≡ true = first_where-hit (λ t. t.id == n) b.rows t found in
        get_task-update_task n ∙ rw found (ground arith)
  ]
