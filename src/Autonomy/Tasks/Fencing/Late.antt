-- ===== src/Autonomy/Tasks/Fencing/Late.antt =====
-- A worker whose claim was taken over cannot touch the task any more.
use hive_os.Base.{
  ℕ, ◌+◌, ◌<◌, String, false, some, List, ◌≡◌, ap, ◌∙◌, sym, arith, inl, inr, Option-cases,
}
use hive_os.Table.Keyed.{by_id_lt}
use hive_os.Autonomy.Tasks.{TaskRecord, TaskBoard, task_id_of, get_task}
use hive_os.Autonomy.Tasks.Lifecycle.{start, finishable, finish, claim_attempt, complete}
use hive_os.Autonomy.Tasks.Operations.{Op, run}
use hive_os.Autonomy.Tasks.RowRules.{verdict}
use hive_os.Autonomy.Tasks.Changes.Claims.{claim_attempt-Change}
use hive_os.Autonomy.Tasks.Changes.Histories.{run-Change}
use hive_os.Autonomy.Tasks.Invariant.{IsWellFormed, Change-IsWellFormed}
use hive_os.Autonomy.Tasks.Fencing.{update_task_refused, claim_attempt_granted}
use hive_os.Autonomy.Tasks.Fencing.Order.{Change-IsLater}

get_task_lt :
    (n : ℕ) (b : TaskBoard) (t : TaskRecord)
    → IsWellFormed b
    → get_task n b ≡ some t
    → n < b.next_id
unfolding get_task
get_task_lt n b t h found = by_id_lt task_id_of 1 b.next_id n b.rows t h.ids_rise found

-- A completion is refused on a task that is gone, or on which a later token was given.
complete_refused :
    (now task_id token : ℕ) (b : TaskBoard)
    → IsWellFormed b
    → ((t : TaskRecord) → get_task task_id b ≡ some t → token < t.attempts)
    → complete now task_id (some token) b ≡ (b, false)
unfolding complete
complete_refused now task_id token b h newer =
    update_task_refused task_id (finishable (some token)) (finish now) b h
      (elim (Option-cases (get_task task_id b)) [
        | inl gone ↦ ap (verdict (finishable (some token))) gone
        | inr (t, found) ↦
            ap (verdict (finishable (some token))) found ∙ ground (arith, newer t found)
      ])

-- Two claims of one task, with any history between them, get rising tokens; and after any further
-- history a completion under the first token changes nothing and returns False.
pub late_worker_fenced :
    (casefold : String → String) (now later at : ℕ) (first second : String) (task_id : ℕ)
    (b : TaskBoard) (between after : List Op) (token token' : ℕ)
    → IsWellFormed b
    → (claim_attempt now first task_id b).1 ≡ some token
    → let d = run casefold (claim_attempt now first task_id b).0 between in
      (claim_attempt later second task_id d).1 ≡ some token'
      → let e = run casefold (claim_attempt later second task_id d).0 after in
        (token < token') × (complete at task_id (some token) e ≡ (e, false))
unfolding start
late_worker_fenced casefold now later at first second task_id b between after token token' h granted
      granted' =
    let c : TaskBoard = (claim_attempt now first task_id b).0 in
    let d : TaskBoard = run casefold c between in
    let d' : TaskBoard = (claim_attempt later second task_id d).0 in
    let e : TaskBoard = run casefold d' after in
    let c_ok : IsWellFormed c = Change-IsWellFormed (claim_attempt-Change now task_id b first) h in
    let d_ok : IsWellFormed d = Change-IsWellFormed (run-Change casefold between c) c_ok in
    let d'_ok : IsWellFormed d' =
      Change-IsWellFormed (claim_attempt-Change later task_id d second) d_ok in
    let e_ok : IsWellFormed e = Change-IsWellFormed (run-Change casefold after d') d'_ok in
    let (t, found, waiting, budget, is_next, at_c) =
      claim_attempt_granted now first task_id b token h granted in
    let (u, at_d, waiting', budget', is_next', at_d') =
      claim_attempt_granted later second task_id d token' d_ok granted' in
    let (s, at_c', rise) =
      (Change-IsLater (run-Change casefold between c) c_ok).tokens_rise task_id u
        (get_task_lt task_id c (start now first t) c_ok at_c) at_d in
    let same_row : some (start now first t) ≡ some s = sym at_c ∙ at_c' in
    let same_token : t.attempts + 1 ≡ s.attempts = ground arith in
    let rising : token < token' = omega arith in
    (
      rising,
      complete_refused at task_id token e e_ok (λ v at_e.
          let (w, at_w, rise') =
            (Change-IsLater (run-Change casefold after d') d'_ok).tokens_rise task_id v
              (get_task_lt task_id d' (start later second u) d'_ok at_d') at_e in
          let same_row' : some (start later second u) ≡ some w = sym at_d' ∙ at_w in
          let same_token' : u.attempts + 1 ≡ w.attempts = ground arith in omega arith),
    )
