-- ===== src/Autonomy/Tasks/Operations.antt =====
-- Every call that changes the board, as a value, and a run of calls: the histories that the
-- invariants range over. A call that raises leaves the board as its transaction does.
use hive_os.Base.{ℕ, String, Bool, Option, List, [], ◌∷◌}
use hive_os.Autonomy.Tasks.{TaskBoard}
use hive_os.Autonomy.Tasks.Enqueue.{
  Result, returned, raised, NewTask, Entry, enqueue, enqueue_many, activate_goal_batch,
}
use hive_os.Autonomy.Tasks.Issues.{enqueue_issue_work}
use hive_os.Autonomy.Tasks.Lifecycle.{
  Delay, claim_attempt, complete, await_approval, fail_if_running, fail, retry_or_dead,
  defer_rate_limited, cancel, cancel_running, touch_running, retry,
}
use hive_os.Autonomy.Tasks.Recovery.{
  Cutoff, stall_or_dead, recover_stalled, resolve_approval, retry_all_failed, purge_done,
  bulk_purge_failed, bulk_cancel_pending,
}

pub data Op : Type 0 where
  enqueue_op : ℕ → NewTask → Op
  enqueue_many_op : ℕ → String → List Entry → Op
  issue_op : ℕ → String → String → String → ℕ → ℕ → Op
  activate_op : ℕ → List ℕ → String → Op
  claim_op : ℕ → String → ℕ → Op
  complete_op : ℕ → ℕ → Option ℕ → Op
  await_op : ℕ → ℕ → String → Option ℕ → Op
  resolve_op : ℕ → String → Bool → String → Op
  fail_if_running_op : ℕ → ℕ → String → Option ℕ → Op
  fail_op : ℕ → ℕ → String → Op
  retry_or_dead_op : ℕ → ℕ → String → Option ℕ → Delay → Op
  defer_op : ℕ → ℕ → ℕ → Delay → Op
  stall_op : ℕ → ℕ → ℕ → String → Option Cutoff → Op
  recover_op : ℕ → (ℕ → ℕ) → ℕ → Op
  cancel_op : ℕ → ℕ → Op
  cancel_running_op : ℕ → ℕ → ℕ → Op
  touch_op : ℕ → ℕ → ℕ → Op
  retry_op : ℕ → ℕ → Op
  retry_all_op : ℕ → Op
  purge_done_op : ℕ → ℕ → Op
  purge_failed_op : ℕ → ℕ → Op
  bulk_cancel_op : ℕ → Option String → Op

unfoldable pub board_after : TaskBoard → Result (TaskBoard × ℕ) → TaskBoard
board_after b (returned r) = r.0
board_after b (raised e) = b

module _ (casefold : String → String) where
  unfoldable pub apply : Op → TaskBoard → TaskBoard
  unfolding board_after
  apply (enqueue_op now n) b = board_after b (enqueue now n b)
  apply (enqueue_many_op now run es) b = (enqueue_many now run es b).0
  apply (issue_op now run owner repo number cap) b =
      (enqueue_issue_work casefold now run owner repo number cap b).0
  apply (activate_op now ids source) b = (activate_goal_batch now ids source b).0
  apply (claim_op now run id) b = (claim_attempt now run id b).0
  apply (complete_op now id expected) b = (complete now id expected b).0
  apply (await_op now id approval expected) b = (await_approval now id approval expected b).0
  apply (resolve_op now approval approved error) b =
      (resolve_approval now approval approved error b).0
  apply (fail_if_running_op now id error expected) b = (fail_if_running now id error expected b).0
  apply (fail_op now id error) b = fail now id error b
  apply (retry_or_dead_op now id error expected delay) b =
      (retry_or_dead now id error expected delay b).0
  apply (defer_op now id expected delay) b = (defer_rate_limited now id expected delay b).0
  apply (stall_op now id expected error cutoff) b = (stall_or_dead now id expected error cutoff b).0
  apply (recover_op now later age) b = (recover_stalled now later age b).0
  apply (cancel_op now id) b = (cancel now id b).0
  apply (cancel_running_op now id expected) b = (cancel_running now id expected b).0
  apply (touch_op now id expected) b = (touch_running now id expected b).0
  apply (retry_op now id) b = (retry now id b).0
  apply (retry_all_op now) b = (retry_all_failed now b).0
  apply (purge_done_op now age) b = (purge_done now age b).0
  apply (purge_failed_op now age) b = (bulk_purge_failed now age b).0
  apply (bulk_cancel_op now kind) b = (bulk_cancel_pending now kind b).0

  unfoldable pub run : TaskBoard → List Op → TaskBoard
  run b [] = b
  run b (op ∷ ops) = run (apply op b) ops
