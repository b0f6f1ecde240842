-- ===== src/Autonomy/Tasks/Changes/Histories.antt =====
-- Every history is a change of the board.
use hive_os.Base.{String, List, [], ◌∷◌}
use hive_os.Autonomy.Tasks.{TaskBoard}
use hive_os.Autonomy.Tasks.Operations.{
  Op, enqueue_op, enqueue_many_op, issue_op, activate_op, claim_op, complete_op, await_op,
  resolve_op, fail_if_running_op, fail_op, retry_or_dead_op, defer_op, stall_op, recover_op,
  cancel_op, cancel_running_op, touch_op, retry_op, retry_all_op, purge_done_op, purge_failed_op,
  bulk_cancel_op, apply, run,
}
use hive_os.Autonomy.Tasks.Changes.{Change, same, followed}
use hive_os.Autonomy.Tasks.Changes.Claims.{
  claim_attempt-Change, complete-Change, await_approval-Change, fail_if_running-Change, fail-Change,
  retry_or_dead-Change, defer_rate_limited-Change, cancel-Change, cancel_running-Change,
  touch_running-Change, retry-Change, stall_or_dead-Change, recover_stalled-Change,
  resolve_approval-Change, retry_all_failed-Change, bulk_cancel_pending-Change, purge_done-Change,
  bulk_purge_failed-Change,
}
use hive_os.Autonomy.Tasks.Changes.Entries.{
  enqueue-Change, enqueue_many-Change, activate_goal_batch-Change, enqueue_issue_work-Change,
}

module _ (casefold : String → String) where
  pub apply-Change : (op : Op) (b : TaskBoard) → Change b (apply casefold op b)
  unfolding apply
  apply-Change (enqueue_op now n) b = enqueue-Change now n b
  apply-Change (enqueue_many_op now run es) b = enqueue_many-Change now run es b
  apply-Change (issue_op now run owner repo number cap) b =
      enqueue_issue_work-Change casefold now run owner repo number cap b
  apply-Change (activate_op now ids source) b = activate_goal_batch-Change now ids source b
  apply-Change (claim_op now run id) b = claim_attempt-Change now id b run
  apply-Change (complete_op now id expected) b = complete-Change now id b expected
  apply-Change (await_op now id approval expected) b =
      await_approval-Change now id b approval expected
  apply-Change (resolve_op now approval approved error) b =
      resolve_approval-Change now b approval approved error
  apply-Change (fail_if_running_op now id error expected) b =
      fail_if_running-Change now id b error expected
  apply-Change (fail_op now id error) b = fail-Change now id b error
  apply-Change (retry_or_dead_op now id error expected delay) b =
      retry_or_dead-Change now id b error expected delay
  apply-Change (defer_op now id expected delay) b =
      defer_rate_limited-Change now id b expected delay
  apply-Change (stall_op now id expected error cutoff) b =
      stall_or_dead-Change now id b expected error cutoff
  apply-Change (recover_op now later age) b = recover_stalled-Change now b later age
  apply-Change (cancel_op now id) b = cancel-Change now id b
  apply-Change (cancel_running_op now id expected) b = cancel_running-Change now id b expected
  apply-Change (touch_op now id expected) b = touch_running-Change now id b expected
  apply-Change (retry_op now id) b = retry-Change now id b
  apply-Change (retry_all_op now) b = retry_all_failed-Change now b
  apply-Change (purge_done_op now age) b = purge_done-Change now b age
  apply-Change (purge_failed_op now age) b = bulk_purge_failed-Change now b age
  apply-Change (bulk_cancel_op now kind) b = bulk_cancel_pending-Change now b kind

  pub run-Change : (ops : List Op) (b : TaskBoard) → Change b (run casefold b ops)
  unfolding run
  run-Change [] b = same b
  run-Change (op ∷ ops) b = followed (apply-Change op b) (run-Change ops (apply casefold op b))
