-- ===== src/Autonomy/Tasks/Changes/Entries.antt =====
-- Every way for work to enter is a change of the board.
use hive_os.Base.{
  ℕ, ◌+◌, ◌≤◌, ◌⊎◌, ap, String, false, Option, none, some, List, [], ◌∷◌, ◌++◌, ◌≡◌, refl,
  if◌then◌else◌, arith, inl, inr, Bool-cases, ltb, leb, not,
}
use hive_os.Table.{count_where, first_where}
use hive_os.Autonomy.Tasks.{TaskRecord, TaskBoard}
use hive_os.Autonomy.Tasks.Enqueue.{
  Error, value_error, integrity_error, has_key, Result, returned, raised, NewTask, new_row,
  conflicts, insert_task, or_existing, stripped, is_reserved_work, enqueue, Entry, entry_task,
  insert_entry, insert_entries, enqueue_many, activate_goal_batch,
}
use hive_os.Autonomy.Tasks.Issues.{
  is_valid_pickup, picked, inflight, issue_key, issue_task, pickup_conflicts, insert_pickup,
  insert_both, commit_or_rollback, enqueue_issue_work,
}
use hive_os.Autonomy.Tasks.Operations.{board_after}
use mathlib.Core.Path.{subst}
use hive_os.Autonomy.Tasks.Changes.{Change, same, followed, updated, inserted, picked_up, if-Change}

-- An INSERT that succeeds adds one pending row under the next key.
pub insert_task_returned :
    (now : ℕ) (n : NewTask) (b : TaskBoard) (r : TaskBoard × ℕ)
    → insert_task now n b ≡ returned r
    → (conflicts n.key b.rows ≡ false)
      × (r ≡ (
        record b { rows = b.rows ++ new_row now b.next_id n ∷ []; next_id = b.next_id + 1 },
        b.next_id,
      ))
unfolding insert_task
insert_task_returned now n b r e = elim (Bool-cases (conflicts n.key b.rows)) [
  | inl taken ↦ ground arith
  | inr free ↦ (free, ground arith)
]

pub insert_task-Change :
    (now : ℕ) (n : NewTask) (b : TaskBoard)
    → 1 ≤ n.max_attempts
    → Change b (board_after b (insert_task now n b))
unfolding insert_task board_after
insert_task-Change now n b given = elim (Bool-cases (conflicts n.key b.rows)) [
  | inl taken ↦ rw taken (same b)
  | inr free ↦ rw free (inserted now n b free given)
]

existing-Change :
    (b : TaskBoard) (o : Option TaskRecord)
    → Change b (
        board_after b (elim o as (λ o. Result (TaskBoard × ℕ)) [
          | none ↦ raised integrity_error
          | some t ↦ returned (b, t.id)
        ]))
unfolding board_after
existing-Change b none = same b
existing-Change b (some t) = same b

or_existing-Change :
    (key : Option String) (b : TaskBoard) (r : Result (TaskBoard × ℕ))
    → Change b (board_after b r)
    → Change b (board_after b (or_existing key b r))
unfolding or_existing board_after
or_existing-Change key b (returned r) k = k
or_existing-Change none b (raised e) k = same b
or_existing-Change (some key) b (raised e) k = existing-Change b (first_where (has_key key) b.rows)

pub enqueue-Change :
    (now : ℕ) (n : NewTask) (b : TaskBoard) → Change b (board_after b (enqueue now n b))
unfolding enqueue board_after
enqueue-Change now n b = elim (Bool-cases (ltb n.max_attempts 1)) [
  | inl none_left ↦ rw none_left (same b)
  | inr given ↦ elim (Bool-cases (is_reserved_work n.kind n.key)) [
    | inl reserved ↦ rw (given, reserved) (same b)
    | inr free ↦
        rw (given, free)
          (or_existing-Change (stripped n.key) b
            (insert_task now (record n { key = stripped n.key }) b)
            (insert_task-Change now (record n { key = stripped n.key }) b (ground arith)))
  ]
]

pub insert_entry-Change :
    (now : ℕ) (run : String) (e : Entry) (b : TaskBoard)
    → Change b (board_after b (insert_entry now run e b))
unfolding insert_entry board_after
insert_entry-Change now run e b =
    let n : NewTask = entry_task run e in
    elim (Bool-cases (ltb n.max_attempts 1)) [
      | inl none_left ↦ rw none_left (same b)
      | inr given ↦ elim (Bool-cases (is_reserved_work n.kind n.key)) [
        | inl reserved ↦ rw (given, reserved) (same b)
        | inr free ↦ rw (given, free) (insert_task-Change now n b (ground arith))
      ]
    ]

pub raised_ne_returned {ℓ} :
    {A : Type ℓ} {e : Error} {a : A} → ◌≡◌ {A = Result A} (raised e) (returned a) → ⊥
raised_ne_returned q = cc

abbrev result_or {ℓ} : {A : Type ℓ} → A → Result A → A
result_or a (returned b) = b
result_or a (raised e) = a

pub returned-injective {ℓ} : {A : Type ℓ} {a b : A} → returned a ≡ returned b → a ≡ b
returned-injective {a} e = ap (result_or a) e

pub Result-cases {ℓ} :
    {A : Type ℓ} (r : Result A) → ((a : A) × (r ≡ returned a)) ⊎ ((e : Error) × (r ≡ raised e))
Result-cases (returned a) = inl (a, refl)
Result-cases (raised e) = inr (e, refl)

insert_entries-Change :
    (now : ℕ) (run : String) (es : List Entry) (b : TaskBoard) (ids : List ℕ)
    (r : TaskBoard × List ℕ)
    → insert_entries now run es b ids ≡ returned r
    → Change b r.0
unfolding insert_entries board_after
insert_entries-Change now run [] b ids r e =
    subst (λ (s : TaskBoard × List ℕ). Change b s.0) (returned-injective e) (same b)
insert_entries-Change now run (x ∷ es) b ids r e = elim (Result-cases (insert_entry now run x b)) [
  | inl (r', step) ↦
      followed (rw step at (insert_entry-Change now run x b)) (
        insert_entries-Change now run es r'.0 (ids ++ r'.1 ∷ []) r (rw (step, insert_entries) at e))
  | inr (error, step) ↦ let e' : raised error ≡ returned r = rw (step, insert_entries) at e in cc
]

pub enqueue_many-Change :
    (now : ℕ) (run : String) (es : List Entry) (b : TaskBoard)
    → Change b (enqueue_many now run es b).0
unfolding enqueue_many
enqueue_many-Change now run es b = elim (Result-cases (insert_entries now run es b [])) [
  | inl (r, done) ↦ rw (done, enqueue_many) (insert_entries-Change now run es b [] r done)
  | inr (error, failed) ↦ rw (failed, enqueue_many) (same b)
]

pub activate_goal_batch-Change :
    (now : ℕ) (ids : List ℕ) (source : String) (b : TaskBoard)
    → Change b (activate_goal_batch now ids source b).0
unfolding activate_goal_batch
activate_goal_batch-Change now ids source b =
    if-Change b _ (_, _) (_, _) (same b)
      (updated _ _ (λ t. refl) (λ key t. refl) (λ t. omega arith) (λ t e ok. ground arith) b)

-- A pickup of a task just inserted.
pub insert_pickup_returned :
    (now : ℕ) (key : String) (r s : TaskBoard × ℕ)
    → insert_pickup now key r ≡ returned s
    → (count_where (pickup_conflicts key r.1) r.0.pickups ≡ 0)
      × (s ≡ (
        record (r.0) {
          pickups =
              r.0.pickups ++ (record { issue_key = key; task_id = r.1; picked_ts = now }) ∷ [];
        },
        r.1,
      ))
unfolding insert_pickup
insert_pickup_returned now key (b, id) s e =
    elim (Bool-cases (ltb 0 (count_where (pickup_conflicts key id) b.pickups))) [
      | inl taken ↦ ground arith
      | inr free ↦ (ground arith, ground arith)
    ]

insert_both-Change :
    (now : ℕ) (key : String) (n : NewTask) (b : TaskBoard) (s : TaskBoard × ℕ)
    → 1 ≤ n.max_attempts
    → insert_both now key n b ≡ returned s
    → Change b s.0
unfolding insert_both
insert_both-Change now key n b s given e = elim (Result-cases (insert_task now n b)) [
  | inl (r, first) ↦
      let (free, is_r) = insert_task_returned now n b r first in
      let (fresh, is_s) = insert_pickup_returned now key r s (rw (first, insert_both) at e) in
      rw (is_s, is_r)
        (followed (inserted now n b free given) (
          picked_up (record { issue_key = key; task_id = b.next_id; picked_ts = now }) _
            (omega arith)))
  | inr (error, failed) ↦ let e' : raised error ≡ returned s = rw (failed, insert_both) at e in cc
]

commit-Change :
    (b : TaskBoard) (r : Result (TaskBoard × ℕ))
    → ((s : TaskBoard × ℕ) → r ≡ returned s → Change b s.0)
    → Change b (commit_or_rollback b r).0
unfolding commit_or_rollback
commit-Change b (returned s) k = k s refl
commit-Change b (raised e) k = same b

pub enqueue_issue_work-Change :
    (casefold : String → String) (now : ℕ) (run owner repo : String) (number cap : ℕ)
    (b : TaskBoard)
    → Change b (enqueue_issue_work casefold now run owner repo number cap b).0
unfolding enqueue_issue_work
enqueue_issue_work-Change casefold now run owner repo number cap b =
    let key = issue_key casefold owner repo number in
    let n : NewTask = issue_task casefold run owner repo number in
    if-Change b (not (is_valid_pickup owner repo number cap)) (b, raised value_error)
      (if ltb 0 (count_where (picked key) b.pickups)
        then (b, returned none)
        else if leb cap (inflight b)
        then (b, returned none)
        else commit_or_rollback b (insert_both now key n b))
      (same b)
      (if-Change b (ltb 0 (count_where (picked key) b.pickups)) (b, returned none)
        (if leb cap (inflight b)
          then (b, returned none)
          else commit_or_rollback b (insert_both now key n b))
        (same b)
        (if-Change b (leb cap (inflight b)) (b, returned none)
          (commit_or_rollback b (insert_both now key n b)) (same b)
          (commit-Change b (insert_both now key n b)
            (λ s e. insert_both-Change now key n b s (omega arith) e))))
