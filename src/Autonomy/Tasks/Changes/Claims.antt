-- ===== src/Autonomy/Tasks/Changes/Claims.antt =====
-- Every call of Lifecycle and Recovery is a change of the board.
use hive_os.Base.{
  ℕ, String, Bool, Option, none, some, List, [], ◌∷◌, refl, ◌&&◌, ◌==◌, arith, inl, inr, Bool-cases,
  Option-cases,
}
use hive_os.Table.{first_where, select}
use hive_os.Autonomy.Tasks.{
  running, awaiting_approval, state_eq, TaskRecord, TaskBoard, update_task, get_task,
}
use hive_os.Autonomy.Tasks.Lifecycle.{
  Delay, claimable, start, claim_attempt, complete, await_approval, fail_if_running, fail,
  retry_or_dead, defer_rate_limited, cancel, cancel_running, touch_running, retry,
}
use hive_os.Autonomy.Tasks.Recovery.{
  Cutoff, before, lease, stalled, stall_or_dead, recover_row, recover_rows, recover_stalled,
  resolve_row, resolve_rows, resolve_approval, retry_all_failed, purge_done, bulk_purge_failed,
  bulk_cancel_pending,
}
use hive_os.Autonomy.Tasks.Changes.{
  Change, same, followed, updated, deleted, update_task-Change, if-Change,
}

module _ (now : ℕ) (task_id : ℕ) (b : TaskBoard) where
  pub claim_attempt-Change : (run : String) → Change b (claim_attempt now run task_id b).0
  unfolding claim_attempt
  claim_attempt-Change run =
      let claimed : Change b (update_task task_id claimable (start now run) b).0 =
        update_task-Change task_id _ _ (λ t. refl) (λ key t. refl) (λ t. omega arith)
          (λ t e ok. ground arith) b in
      if-Change b _ (_, _) (_, _) claimed
        (followed claimed (
          update_task-Change task_id _ _ (λ t. refl) (λ key t. refl) (λ t. omega arith)
            (λ t e ok. ground arith) (update_task task_id claimable (start now run) b).0))

  pub complete-Change : (expected : Option ℕ) → Change b (complete now task_id expected b).0
  unfolding complete
  complete-Change expected =
      update_task-Change task_id _ _ (λ t. refl) (λ key t. refl) (λ t. omega arith)
        (λ t e ok. ground arith) b

  pub await_approval-Change :
      (approval_id : String) (expected : Option ℕ)
      → Change b (await_approval now task_id approval_id expected b).0
  unfolding await_approval
  await_approval-Change approval_id expected = elim (Option-cases (get_task task_id b)) [
    | inl gone ↦ rw (gone, await_approval) (same b)
    | inr (t, found) ↦
        rw (found, await_approval)
          (update_task-Change task_id _ _ (λ t. refl) (λ key t. refl) (λ t. omega arith)
            (λ t e ok. ground arith) b)
  ]

  pub fail_if_running-Change :
      (error : String) (expected : Option ℕ)
      → Change b (fail_if_running now task_id error expected b).0
  unfolding fail_if_running
  fail_if_running-Change error expected =
      update_task-Change task_id _ _ (λ t. refl) (λ key t. refl) (λ t. omega arith)
        (λ t e ok. ground arith) b

  pub fail-Change : (error : String) → Change b (fail now task_id error b)
  unfolding fail
  fail-Change error =
      update_task-Change task_id _ _ (λ t. refl) (λ key t. refl) (λ t. omega arith)
        (λ t e ok. ground arith) b

  pub retry_or_dead-Change :
      (error : String) (expected : Option ℕ) (delay : Delay)
      → Change b (retry_or_dead now task_id error expected delay b).0
  unfolding retry_or_dead
  retry_or_dead-Change error expected delay =
      update_task-Change task_id _ _ (λ t. refl) (λ key t. refl) (λ t. omega arith)
        (λ t e ok. ground arith) b

  pub defer_rate_limited-Change :
      (expected : ℕ) (delay : Delay) → Change b (defer_rate_limited now task_id expected delay b).0
  unfolding defer_rate_limited
  defer_rate_limited-Change expected delay =
      update_task-Change task_id _ _ (λ t. refl) (λ key t. refl) (λ t. omega arith)
        (λ t e ok. ground arith) b

  pub cancel-Change : Change b (cancel now task_id b).0
  unfolding cancel
  cancel-Change =
      update_task-Change task_id _ _ (λ t. refl) (λ key t. refl) (λ t. omega arith)
        (λ t e ok. ground arith) b

  pub cancel_running-Change : (expected : ℕ) → Change b (cancel_running now task_id expected b).0
  unfolding cancel_running
  cancel_running-Change expected =
      update_task-Change task_id _ _ (λ t. refl) (λ key t. refl) (λ t. omega arith)
        (λ t e ok. ground arith) b

  pub touch_running-Change : (expected : ℕ) → Change b (touch_running now task_id expected b).0
  unfolding touch_running
  touch_running-Change expected =
      update_task-Change task_id _ _ (λ t. refl) (λ key t. refl) (λ t. omega arith)
        (λ t e ok. ground arith) b

  pub retry-Change : Change b (retry now task_id b).0
  unfolding retry
  retry-Change =
      update_task-Change task_id _ _ (λ t. refl) (λ key t. refl) (λ t. omega arith)
        (λ t e ok. ground arith) b

  pub stall_or_dead-Change :
      (expected : ℕ) (error : String) (cutoff : Option Cutoff)
      → Change b (stall_or_dead now task_id expected error cutoff b).0
  unfolding stall_or_dead
  stall_or_dead-Change expected error cutoff =
      elim (Option-cases
        (first_where (λ t. (t.id == task_id) && stalled expected cutoff t) b.rows)) [
          | inl gone ↦ rw (gone, stall_or_dead) (same b)
          | inr (t, found) ↦
              rw (found, stall_or_dead)
                (update_task-Change task_id _ _ (λ t. refl) (λ key t. refl) (λ t. omega arith)
                  (λ t e ok. ground arith) b)
        ]

recover_row-Change :
    (now : ℕ) (later : ℕ → ℕ) (age : ℕ) (t : TaskRecord) (acc : TaskBoard × ℕ)
    → Change acc.0 (recover_row now later age t acc).0
unfolding recover_row
recover_row-Change now later age t (b, n) =
    let cutoff : Cutoff = record { now = now; age = lease age t } in
    elim (Bool-cases (before cutoff t)) [
      | inl due ↦ rw due (stall_or_dead-Change (later t.id) t.id b t.attempts _ (some cutoff))
      | inr early ↦ rw early (same b)
    ]

recover_rows-Change :
    (now : ℕ) (later : ℕ → ℕ) (age : ℕ) (ts : List TaskRecord) (acc : TaskBoard × ℕ)
    → Change acc.0 (recover_rows now later age ts acc).0
unfolding recover_rows
recover_rows-Change now later age [] acc = same acc.0
recover_rows-Change now later age (t ∷ ts) acc =
    followed (recover_row-Change now later age t acc)
      (recover_rows-Change now later age ts (recover_row now later age t acc))

resolve_row-Change :
    (now : ℕ) (approval : String) (approved : Bool) (error : String) (t : TaskRecord)
    (acc : TaskBoard × ℕ)
    → Change acc.0 (resolve_row now approval approved error t acc).0
unfolding resolve_row
resolve_row-Change now approval approved error t (b, n) =
    if-Change b _ (_, _) (_, _) (same b)
      (if-Change b approved (_, _) (_, _) (complete-Change now t.id b none)
        (fail-Change now t.id b _))

resolve_rows-Change :
    (now : ℕ) (approval : String) (approved : Bool) (error : String) (ts : List TaskRecord)
    (acc : TaskBoard × ℕ)
    → Change acc.0 (resolve_rows now approval approved error ts acc).0
unfolding resolve_rows
resolve_rows-Change now approval approved error [] acc = same acc.0
resolve_rows-Change now approval approved error (t ∷ ts) acc =
    followed (resolve_row-Change now approval approved error t acc) (
      resolve_rows-Change now approval approved error ts
        (resolve_row now approval approved error t acc))

module _ (now : ℕ) (b : TaskBoard) where
  pub recover_stalled-Change :
      (later : ℕ → ℕ) (age : ℕ) → Change b (recover_stalled now later age b).0
  unfolding recover_stalled
  recover_stalled-Change later age =
      recover_rows-Change now later age
        (select (λ t. state_eq t.state running && before (record { now = now; age = age }) t)
          b.rows)
        (b, 0)

  pub resolve_approval-Change :
      (approval : String) (approved : Bool) (error : String)
      → Change b (resolve_approval now approval approved error b).0
  unfolding resolve_approval
  resolve_approval-Change approval approved error =
      resolve_rows-Change now approval approved error
        (select (λ t. state_eq t.state awaiting_approval) b.rows) (b, 0)

  pub retry_all_failed-Change : Change b (retry_all_failed now b).0
  unfolding retry_all_failed
  retry_all_failed-Change =
      updated _ _ (λ t. refl) (λ key t. refl) (λ t. omega arith) (λ t e ok. ground arith) b

  pub bulk_cancel_pending-Change :
      (kind : Option String) → Change b (bulk_cancel_pending now kind b).0
  unfolding bulk_cancel_pending
  bulk_cancel_pending-Change kind =
      updated _ _ (λ t. refl) (λ key t. refl) (λ t. omega arith) (λ t e ok. ground arith) b

  pub purge_done-Change : (age : ℕ) → Change b (purge_done now age b).0
  unfolding purge_done
  purge_done-Change age = deleted _ b

  pub bulk_purge_failed-Change : (age : ℕ) → Change b (bulk_purge_failed now age b).0
  unfolding bulk_purge_failed
  bulk_purge_failed-Change age = deleted _ b
