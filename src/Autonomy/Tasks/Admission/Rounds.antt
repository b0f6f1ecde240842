-- ===== src/Autonomy/Tasks/Admission/Rounds.antt =====
-- What a round of a scheduler queues: rows for tasks without a key, as `enqueue` of
-- src/hive/autonomy/tasks.py inserts them.
use hive_os.Base.{
  ℕ, ◌+◌, String, none, List, [], ◌∷◌, ◌++◌, ◌≡◌, refl, sym, inl, inr, Bool-cases, ltb,
}
use mathlib.Core.List.{append_assoc}
use hive_os.Autonomy.Tasks.{pending, Payload, default_max_attempts, TaskRecord, TaskBoard}
use hive_os.Autonomy.Tasks.Enqueue.{
  returned, NewTask, new_row, enqueue, insert_task, stripped, or_existing, conflicts,
  is_reserved_work,
}
use hive_os.Autonomy.Tasks.Changes.Entries.{raised_ne_returned, returned-injective}

-- The board after a task without a key.
abbrev pub added : ℕ → NewTask → TaskBoard → TaskBoard
added now n b = record b { rows = b.rows ++ new_row now b.next_id n ∷ []; next_id = b.next_id + 1 }

abbrev pub unkeyed : NewTask → NewTask
unkeyed n = record n { key = none }

pub enqueue-unkeyed_returned :
    (now : ℕ) (n : NewTask) (b : TaskBoard) (r : TaskBoard × ℕ)
    → enqueue now (unkeyed n) b ≡ returned r
    → r ≡ (added now (unkeyed n) b, b.next_id)
unfolding enqueue insert_task stripped or_existing conflicts
enqueue-unkeyed_returned now n b r e = elim (Bool-cases (ltb n.max_attempts 1)) [
  | inl few ↦ absurd (raised_ne_returned (rw few at e))
  | inr enough ↦ elim (Bool-cases (is_reserved_work n.kind none)) [
    | inl reserved ↦ absurd (raised_ne_returned (rw (enough, reserved) at e))
    | inr allowed ↦ sym (returned-injective (rw (enough, allowed) at e))
  ]
]

-- A task that waits for its first claim, for any time, with the default number of attempts.
pub record IsQueued (id : ℕ) (kind : String) (payload : Payload) (source run : String)
    (t : TaskRecord) : Type 0 where
  pub numbered : t.id ≡ id
  pub waiting : t.state ≡ pending
  pub of_kind : t.kind ≡ kind
  pub carries : t.payload ≡ payload
  pub sourced : t.source ≡ source
  pub in_run : t.run_id ≡ run
  pub now_due : t.scheduled_for ≡ 0
  pub unclaimed : t.attempts ≡ 0
  pub budget : t.max_attempts ≡ 3

pub new_row-IsQueued :
    (now id : ℕ) (kind : String) (payload : Payload) (source run : String)
    → IsQueued id kind payload source run (
        new_row now id (record {
          kind = kind;
          payload = payload;
          scheduled_for = 0;
          source = source;
          run_id = run;
          max_attempts = default_max_attempts;
          key = none;
        }))
unfolding new_row
new_row-IsQueued now id kind payload source run = record {
  numbered = refl;
  waiting = refl;
  of_kind = refl;
  carries = refl;
  sourced = refl;
  in_run = refl;
  now_due = refl;
  unclaimed = refl;
  budget = refl;
}

module _ {R : Type 0} where
  -- The rows of some sources, under consecutive ids.
  unfoldable pub rows_from : (R → NewTask) → ℕ → ℕ → List R → List TaskRecord
  rows_from task now id [] = []
  rows_from task now id (r ∷ rs) = new_row now id (task r) ∷ rows_from task now (id + 1) rs

  -- The rows are for these sources, one each, in order and under consecutive ids from `id`.
  pub Each : (ℕ → R → TaskRecord → Type 0) → ℕ → List R → List TaskRecord → Type 0
  Each P id [] [] = Unit
  Each P id (r ∷ rs) (t ∷ ts) = P id r t × Each P (id + 1) rs ts
  Each P id _ _ = ⊥

  pub rows_from-Each :
      (P : ℕ → R → TaskRecord → Type 0) (task : R → NewTask) (now id : ℕ) (rs : List R)
      → ((n : ℕ) (r : R) → P n r (new_row now n (task r)))
      → Each P id rs (rows_from task now id rs)
  unfolding rows_from Each
  rows_from-Each P task now id [] is = tt
  rows_from-Each P task now id (r ∷ rs) is = (is id r, rows_from-Each P task now (id + 1) rs is)

  pub added-rows_from :
      (task : R → NewTask) (now : ℕ) (r : R) (rs : List R) (b : TaskBoard)
      → (added now (task r) b).rows ++ rows_from task now (b.next_id + 1) rs
        ≡ b.rows ++ rows_from task now b.next_id (r ∷ rs)
  unfolding rows_from
  added-rows_from task now r rs b = simp append_assoc
