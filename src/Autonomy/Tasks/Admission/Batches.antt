-- ===== src/Autonomy/Tasks/Admission/Batches.antt =====
-- A plan of tasks enters whole or not at all.
use hive_os.Base.{
  ℕ, suc, ◌+◌, String, List, [], ◌∷◌, ◌++◌, ◌≡◌, ap, ◌∙◌, sym, arith, inl, inr, ◌⊎◌, Bool-cases,
  length, map, ltb,
}
use mathlib.Core.List.{append_assoc, append-nil}
use native.Mathlib.Nat.{add-zero}
use hive_os.Autonomy.Tasks.{TaskRecord, TaskBoard, task_id_of}
use hive_os.Autonomy.Tasks.Enqueue.{
  Error, returned, raised, NewTask, new_row, is_reserved_work, Entry, entry_task, insert_entry,
  insert_entries, enqueue_many,
}
use hive_os.Autonomy.Tasks.Changes.Entries.{
  Result-cases, raised_ne_returned, returned-injective, insert_task_returned,
}

-- The rows of a plan, under consecutive ids.
pub rows_for : ℕ → String → ℕ → List Entry → List TaskRecord
rows_for now run next [] = []
rows_for now run next (e ∷ es) =
    new_row now next (entry_task run e) ∷ rows_for now run (next + 1) es

-- The board with a plan added.
abbrev pub with_plan : ℕ → String → List Entry → TaskBoard → TaskBoard
with_plan now run es b = record b {
  rows = b.rows ++ rows_for now run b.next_id es;
  next_id = b.next_id + length es;
}

insert_entry_returned :
    (now : ℕ) (run : String) (e : Entry) (b : TaskBoard) (r : TaskBoard × ℕ)
    → insert_entry now run e b ≡ returned r
    → r ≡ (
      record b {
        rows = b.rows ++ new_row now b.next_id (entry_task run e) ∷ [];
        next_id = b.next_id + 1;
      },
      b.next_id,
    )
unfolding insert_entry
insert_entry_returned now run e b r h =
    let n : NewTask = entry_task run e in
    elim (Bool-cases (ltb n.max_attempts 1)) [
      | inl few ↦ absurd (raised_ne_returned (rw few at h))
      | inr enough ↦ elim (Bool-cases (is_reserved_work n.kind n.key)) [
        | inl reserved ↦ absurd (raised_ne_returned (rw (enough, reserved) at h))
        | inr free ↦ (insert_task_returned now n b r (rw (enough, free) at h)).1
      ]
    ]

add_suc_right : (n m : ℕ) → n + 1 + m ≡ n + suc m
add_suc_right n m = omega arith

insert_entries_returned :
    (now : ℕ) (run : String) (es : List Entry) (b : TaskBoard) (ids : List ℕ)
    (r : TaskBoard × List ℕ)
    → insert_entries now run es b ids ≡ returned r
    → r ≡ (with_plan now run es b, ids ++ map task_id_of (rows_for now run b.next_id es))
unfolding insert_entries rows_for new_row
insert_entries_returned now run [] b ids r h =
    sym (returned-injective h) ∙ simp (append-nil, add-zero)
insert_entries_returned now run (e ∷ es) b ids r h =
    elim (Result-cases (insert_entry now run e b)) [
      | inl (s, step) ↦
          let is_s = insert_entry_returned now run e b s step in
          let rest =
            insert_entries_returned now run es s.0 (ids ++ s.1 ∷ []) r
              (rw (step, insert_entries) at h) in
          rest ∙ rw is_s (simp (append_assoc, add_suc_right))
      | inr (error, step) ↦ absurd (raised_ne_returned (rw (step, insert_entries) at h))
    ]

-- enqueue_many either leaves the board as it was and raises, or adds one pending task for each entry,
-- in order, under the next consecutive ids, and returns exactly these ids.
pub enqueue_many_atomic :
    (now : ℕ) (run : String) (es : List Entry) (b : TaskBoard)
    → ((e : Error) × (enqueue_many now run es b ≡ (b, raised e)))
      ⊎ (enqueue_many now run es b
          ≡ (with_plan now run es b, returned (map task_id_of (rows_for now run b.next_id es))))
unfolding enqueue_many
enqueue_many_atomic now run es b = elim (Result-cases (insert_entries now run es b [])) [
  | inl (r, done) ↦
      inr (rw (done ∙ ap returned (insert_entries_returned now run es b [] r done), enqueue_many))
  | inr (error, failed) ↦ inl (error, rw (failed, enqueue_many))
]
