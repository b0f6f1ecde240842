-- ===== src/Autonomy/Tasks/Admission/Pickups.antt =====
-- An issue is picked up once, and never beyond the cap on issues in flight.
use hive_os.Base.{
  ℕ, ◌+◌, ◌≤◌, ◌<◌, String, true, Option, none, some, List, [], ◌∷◌, ◌++◌, ◌≡◌, refl, ap, ◌∙◌, sym,
  arith, inl, inr, Bool-cases, All-map, ltb, leb, str_eq_iff,
}
use hive_os.Table.{count_where}
use hive_os.Table.Rows.{count_where-append, count_where_agree}
use hive_os.Table.Keyed.{by_id-append_old, by_id-append, by_id_fresh}
use hive_os.Autonomy.Tasks.{IssuePickup, TaskBoard, task_id_of, get_task}
use hive_os.Autonomy.Tasks.Enqueue.{Result, returned, NewTask, new_row, insert_task}
use hive_os.Autonomy.Tasks.Issues.{
  is_valid_pickup, active_pickup, inflight, picked, insert_both, commit_or_rollback, issue_key,
  issue_task, enqueue_issue_work,
}
use hive_os.Autonomy.Tasks.Operations.{Op, run}
use hive_os.Autonomy.Tasks.Changes.{Change, same, followed, updated, deleted, inserted, picked_up}
use hive_os.Autonomy.Tasks.Changes.Entries.{
  Result-cases, raised_ne_returned, insert_task_returned, insert_pickup_returned,
}
use hive_os.Autonomy.Tasks.Changes.Histories.{run-Change}
use hive_os.Autonomy.Tasks.Invariant.{IsWellFormed}

-- No change forgets a pickup.
Change-keeps_pickups :
    (key : String) {b c : TaskBoard}
    → Change b c
    → count_where (picked key) b.pickups ≤ count_where (picked key) c.pickups
Change-keeps_pickups key (same b) = omega arith
Change-keeps_pickups key (followed first rest) =
    omega (arith, Change-keeps_pickups key first, Change-keeps_pickups key rest)
Change-keeps_pickups key (updated p f same_id same_key tokens keep b) = omega arith
Change-keeps_pickups key (deleted p b) = omega arith
Change-keeps_pickups key (inserted now n b free given) = omega arith
Change-keeps_pickups key (picked_up p b old) =
    omega (arith, count_where-append (picked key) b.pickups (p ∷ []))

-- The board after a pickup, spelled out.
abbrev pickup_of : ℕ → String → TaskBoard → IssuePickup
pickup_of now key b = record { issue_key = key; task_id = b.next_id; picked_ts = now }

abbrev with_pickup : ℕ → String → NewTask → TaskBoard → TaskBoard
with_pickup now key n b = record {
  rows = b.rows ++ new_row now b.next_id n ∷ [];
  next_id = b.next_id + 1;
  pickups = b.pickups ++ pickup_of now key b ∷ [];
}

insert_both_returned :
    (now : ℕ) (key : String) (n : NewTask) (b : TaskBoard) (s : TaskBoard × ℕ)
    → insert_both now key n b ≡ returned s
    → s ≡ (with_pickup now key n b, b.next_id)
unfolding insert_both
insert_both_returned now key n b s e = elim (Result-cases (insert_task now n b)) [
  | inl (r, first) ↦
      let is_r = (insert_task_returned now n b r first).1 in
      let is_s = (insert_pickup_returned now key r s (rw (first, insert_both) at e)).1 in
      is_s ∙ rw is_r
  | inr (error, failed) ↦ absurd (raised_ne_returned (rw (failed, insert_both) at e))
]

active_pickup-old :
    (now : ℕ) (key : String) (n : NewTask) (b : TaskBoard) (p : IssuePickup)
    → p.task_id < b.next_id
    → active_pickup (with_pickup now key n b) p ≡ active_pickup b p
unfolding active_pickup new_row
active_pickup-old now key n b p issued = rw (
  by_id-append_old task_id_of p.task_id b.rows (new_row now b.next_id n) (omega arith),
  active_pickup,
)

active_pickup-new :
    (now : ℕ) (key : String) (n : NewTask) (b : TaskBoard)
    → IsWellFormed b
    → active_pickup (with_pickup now key n b) (pickup_of now key b) ≡ true
unfolding active_pickup new_row
active_pickup-new now key n b h = rw (
  by_id-append task_id_of b.next_id b.rows (new_row now b.next_id n)
      (by_id_fresh task_id_of 1 b.next_id b.rows h.ids_rise) refl,
  active_pickup,
)

inflight-with_pickup :
    (now : ℕ) (key : String) (n : NewTask) (b : TaskBoard)
    → IsWellFormed b
    → inflight (with_pickup now key n b) ≡ inflight b + 1
unfolding inflight count_where
inflight-with_pickup now key n b h =
    let c : TaskBoard = with_pickup now key n b in
    let old =
      count_where_agree (active_pickup c) (active_pickup b) b.pickups
        (All-map _ _ b.pickups (active_pickup-old now key n b) h.pickups_issued) in
    count_where-append (active_pickup c) b.pickups (pickup_of now key b ∷ [])
    ∙ rw (old, active_pickup-new now key n b h)

none_ne_some : {id : ℕ} → ◌≡◌ {A = Result (Option ℕ)} (returned none) (returned (some id)) → ⊥
none_ne_some e = cc

abbrev taken_id : Result (Option ℕ) → ℕ
taken_id (returned (some id)) = id
taken_id _ = 0

picked-with_pickup :
    (now : ℕ) (key : String) (n : NewTask) (b : TaskBoard)
    → 1 ≤ count_where (picked key) (with_pickup now key n b).pickups
unfolding count_where
picked-with_pickup now key n b = ground (
  arith,
  count_where-append (picked key) b.pickups (pickup_of now key b ∷ []),
  str_eq_iff key key,
)

module _ (casefold : String → String) (now : ℕ) (worker owner repo : String) (number cap : ℕ)
    (b : TaskBoard) where
  -- What an accepted pickup has passed.
  enqueue_issue_work_accepted :
      (id : ℕ)
      → (enqueue_issue_work casefold now worker owner repo number cap b).1 ≡ returned (some id)
      → let key = issue_key casefold owner repo number in
        (cap ≤ 4)
        × (count_where (picked key) b.pickups ≡ 0)
        × (inflight b < cap)
        × (id ≡ b.next_id)
        × ((enqueue_issue_work casefold now worker owner repo number cap b).0
            ≡ with_pickup now key (issue_task casefold worker owner repo number) b)
  unfolding enqueue_issue_work commit_or_rollback
  enqueue_issue_work_accepted id e =
      let key = issue_key casefold owner repo number in
      let n : NewTask = issue_task casefold worker owner repo number in
      elim (Bool-cases (is_valid_pickup owner repo number cap)) [
        | inr bad ↦ absurd (raised_ne_returned (rw bad at e))
        | inl good ↦ elim (Bool-cases (ltb 0 (count_where (picked key) b.pickups))) [
          | inl old ↦ absurd (none_ne_some (rw (good, old) at e))
          | inr fresh ↦ elim (Bool-cases (leb cap (inflight b))) [
            | inl full ↦ absurd (none_ne_some (rw (good, fresh, full) at e))
            | inr room ↦ elim (Result-cases (insert_both now key n b)) [
              | inr (error, failed) ↦
                  absurd
                    (raised_ne_returned (rw (good, fresh, room, failed, commit_or_rollback) at e))
              | inl (s, done) ↦
                  let is_s = insert_both_returned now key n b s done in
                  let its_id =
                    ap taken_id (rw (good, fresh, room, done, commit_or_rollback) at e) in
                  (
                    unfold is_valid_pickup in (ground arith),
                    ground arith,
                    ground arith,
                    sym its_id ∙ ap (λ (q : TaskBoard × ℕ). q.1) is_s,
                    rw (good, fresh, room, done, commit_or_rollback)
                        (ap (λ (q : TaskBoard × ℕ). q.0) is_s),
                  )
            ]
          ]
        ]
      ]

  -- A pickup that is accepted makes one pending issue task, raises the number of issue tasks in
  -- flight by exactly one, and leaves at most `cap` of them, which is at most four.
  pub pickup_within_cap :
      (id : ℕ)
      → IsWellFormed b
      → (enqueue_issue_work casefold now worker owner repo number cap b).1 ≡ returned (some id)
      → let c = (enqueue_issue_work casefold now worker owner repo number cap b).0 in
        (inflight c ≡ inflight b + 1)
        × (inflight c ≤ cap)
        × (cap ≤ 4)
        × (get_task id c ≡ some (new_row now id (issue_task casefold worker owner repo number)))
  unfolding get_task new_row
  pickup_within_cap id h e =
      let key = issue_key casefold owner repo number in
      let n : NewTask = issue_task casefold worker owner repo number in
      let (small, fresh, room, is_id, is_c) = enqueue_issue_work_accepted id e in
      let grown = inflight-with_pickup now key n b h in
      rw (is_c, is_id)
        (
          grown,
          omega arith,
          small,
          by_id-append task_id_of b.next_id b.rows (new_row now b.next_id n)
              (by_id_fresh task_id_of 1 b.next_id b.rows h.ids_rise) refl,
        )

  -- An issue that was picked up is never picked up again: after any history, deletions of its task
  -- included, a further valid request for it returns None and changes nothing, whatever its cap.
  pub pickup_once :
      (id : ℕ) (later cap' : ℕ) (other : String) (ops : List Op)
      → (enqueue_issue_work casefold now worker owner repo number cap b).1 ≡ returned (some id)
      → is_valid_pickup owner repo number cap' ≡ true
      → let d =
          run casefold (enqueue_issue_work casefold now worker owner repo number cap b).0 ops in
        enqueue_issue_work casefold later other owner repo number cap' d ≡ (d, returned none)
  unfolding enqueue_issue_work commit_or_rollback
  pickup_once id later cap' other ops e good =
      let key = issue_key casefold owner repo number in
      let n : NewTask = issue_task casefold worker owner repo number in
      let c : TaskBoard = (enqueue_issue_work casefold now worker owner repo number cap b).0 in
      let d : TaskBoard = run casefold c ops in
      let (small, fresh, room, is_id, is_c) = enqueue_issue_work_accepted id e in
      let at_c : 1 ≤ count_where (picked key) c.pickups =
        rw is_c (picked-with_pickup now key n b) in
      let kept = Change-keeps_pickups key (run-Change casefold ops c) in
      let taken : ltb 0 (count_where (picked key) d.pickups) ≡ true = ground arith in
      rw (good, taken)
