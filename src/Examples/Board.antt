-- ===== src/Examples/Board.antt =====
-- The theorems on the work board and on the goal ledger, at small boards.
use hive_os.Base.{
  ◌+◌, ◌≤◌, ◌<◌, String, false, none, some, List, [], ◌∷◌, ◌≡◌, ◌≢◌, refl, arith, map, max, leb,
  ◌==◌, if◌then◌else◌, ◌⊎◌, strip,
}
use hive_os.Table.{select, count_where, first_where, update_where}
use hive_os.Autonomy.Tasks.{
  TaskRecord, TaskBoard, empty_board, update_task, get_task, pending, dead, task_id_of, seconds,
}
use hive_os.Autonomy.Tasks.Enqueue.{
  NewTask, Entry, enqueue, insert_task, stripped, is_reserved, conflicts, new_row, or_existing,
  returned, raised, Error, enqueue_many,
}
use hive_os.Autonomy.Tasks.Issues.{
  enqueue_issue_work, inflight, issue_task, is_valid_pickup, commit_or_rollback, insert_both,
  issue_key, insert_pickup,
}
use hive_os.Autonomy.Tasks.Lifecycle.{
  claim_attempt, complete, Delay, start, retry_or_dead, defer_rate_limited, defer_row, retry_row,
  bounded_delay, clip, token_of, await_approval, fail_if_running, cancel_running, touch_running,
}
use hive_os.Autonomy.Tasks.Operations.{Op, run, apply, board_after}
use hive_os.Autonomy.Tasks.Operations
use hive_os.Autonomy.Tasks.Recovery.{
  recover_stalled, requeue_running, stall_or_dead, recover_rows, recover_row, stall_row,
}
use hive_os.Autonomy.Tasks.Fencing.Late.{late_worker_fenced}
use hive_os.Autonomy.Tasks.Outcomes.{deferral_is_free, failure_spends_budget}
use hive_os.Autonomy.Tasks.Admission.Batches.{enqueue_many_atomic, rows_for, with_plan}
use hive_os.Autonomy.Tasks.Admission.Pickups.{pickup_within_cap, pickup_once}
use hive_os.Autonomy.Tasks.Leases.{live_lease_survives}
use hive_os.Autonomy.Tasks.Invariant.{IsWellFormed, run-IsWellFormed, empty_board-IsWellFormed}
use hive_os.Autonomy.Tasks.Fencing.{claim_attempt_exclusive, stale_token_ignored}

abbrev same_case : String → String
same_case s = s

abbrev tool : NewTask
tool = record {
  kind = "tool";
  payload = [];
  scheduled_for = 0;
  source = "";
  run_id = "";
  max_attempts = 3;
  key = some "k1";
}

abbrev one_task : List Op
one_task = Operations.enqueue_op 1000 tool ∷ []

abbrev board : TaskBoard
board = run same_case empty_board one_task

board-IsWellFormed : IsWellFormed board
board-IsWellFormed = run-IsWellFormed same_case one_task

abbrev tool_row : TaskRecord
tool_row = new_row 1000 1 tool

granted : (claim_attempt 2000 "r" 1 board).1 ≡ some 1
unfolding claim_attempt token_of run apply board_after enqueue insert_task stripped strip
    is_reserved conflicts new_row or_existing update_task get_task update_where count_where
    first_where empty_board start
granted = refl

found : get_task 1 board ≡ some tool_row
unfolding claim_attempt token_of run apply board_after enqueue insert_task stripped strip
    is_reserved conflicts new_row or_existing update_task get_task update_where count_where
    first_where empty_board start
found = refl

abbrev claimed : TaskBoard
claimed = (claim_attempt 2000 "r" 1 board).0

run-IsWellFormed_example : IsWellFormed (run same_case empty_board one_task)
run-IsWellFormed_example = run-IsWellFormed same_case one_task

claim_attempt_exclusive_example : claim_attempt 3000 "s" 1 claimed ≡ (claimed, none)
claim_attempt_exclusive_example =
    claim_attempt_exclusive 2000 3000 "r" "s" 1 board 1 board-IsWellFormed granted

other_token : tool_row.attempts ≢ 7
unfolding new_row
other_token e = omega (arith, e)

stale_token_ignored_example :
    (complete 5000 1 (some 7) board ≡ (board, false))
    × (await_approval 5000 1 "a" (some 7) board ≡ (board, false))
    × (fail_if_running 5000 1 "e" (some 7) board ≡ (board, false))
    × (retry_or_dead 5000 1 "e" (some 7) Delay.negative board ≡ (board, false))
    × (defer_rate_limited 5000 1 7 Delay.negative board ≡ (board, false))
    × (stall_or_dead 5000 1 7 "e" none board ≡ (board, false))
    × (cancel_running 5000 1 7 board ≡ (board, false))
    × (touch_running 5000 1 7 board ≡ (board, false))
stale_token_ignored_example =
    stale_token_ignored 5000 1 7 board tool_row board-IsWellFormed found other_token "e" "a"
      Delay.negative none

abbrev recovery : List Op
recovery = Operations.recover_op 400000 (λ id. 400001) 0 ∷ []

abbrev recovered : TaskBoard
recovered = run same_case claimed recovery

granted_again : (claim_attempt 500000 "s" 1 recovered).1 ≡ some 2
unfolding claim_attempt token_of run apply board_after enqueue insert_task stripped strip
    is_reserved conflicts new_row or_existing update_task get_task update_where count_where
    first_where empty_board start recover_stalled recover_rows recover_row stall_row select
granted_again = refl

late_worker_fenced_example :
    (1 < 2)
    × (complete 600000 1 (some 1) (run same_case (claim_attempt 500000 "s" 1 recovered).0 [])
        ≡ (run same_case (claim_attempt 500000 "s" 1 recovered).0 [], false))
late_worker_fenced_example =
    late_worker_fenced same_case 2000 500000 600000 "r" "s" 1 board recovery [] 1 2
      board-IsWellFormed granted granted_again

abbrev later_row : TaskRecord
later_row = defer_row 3000 5000 (start 2000 "r" tool_row)

deferred :
    get_task 1 (defer_rate_limited 3000 1 1 (Delay.milliseconds 5000) claimed).0 ≡ some later_row
unfolding claim_attempt token_of run apply board_after enqueue insert_task stripped strip
    is_reserved conflicts new_row or_existing update_task get_task update_where count_where
    first_where empty_board start defer_rate_limited defer_row bounded_delay
deferred = refl

deferral_is_free_example :
    (later_row.attempts + tool_row.rate_limit_count
      ≡ tool_row.attempts + later_row.rate_limit_count)
    × (later_row.max_attempts ≡ tool_row.max_attempts)
    × (later_row.rate_limit_count ≡ tool_row.rate_limit_count + 1)
    × (later_row.state ≡ (if leb 5 (tool_row.rate_limit_count + 1) then dead else pending))
    × (3000 < later_row.scheduled_for)
    × (later_row.scheduled_for ≤ max tool_row.scheduled_for (3000 + seconds 3600))
deferral_is_free_example =
    deferral_is_free 2000 "r" 1 1 board board-IsWellFormed granted 3000 (Delay.milliseconds 5000)
      tool_row later_row found deferred

abbrev retried_row : TaskRecord
retried_row = retry_row 3000 "e" 5000 (start 2000 "r" tool_row)

retried :
    get_task 1 (retry_or_dead 3000 1 "e" (some 1) (Delay.milliseconds 5000) claimed).0
    ≡ some retried_row
unfolding claim_attempt token_of run apply board_after enqueue insert_task stripped strip
    is_reserved conflicts new_row or_existing update_task get_task update_where count_where
    first_where empty_board start retry_or_dead retry_row bounded_delay clip
retried = refl

failure_spends_budget_example :
    (retried_row.attempts ≡ tool_row.attempts + 1)
    × (retried_row.state ≡ (
        if tool_row.attempts + 1 == tool_row.max_attempts + tool_row.rate_limit_count
        then dead
        else pending))
failure_spends_budget_example =
    failure_spends_budget 2000 "r" 1 1 board board-IsWellFormed granted 3000 "e"
      (Delay.milliseconds 5000) tool_row retried_row found retried

abbrev entry : Entry
entry = record {
  kind = none;
  payload = none;
  scheduled_for = none;
  source = none;
  run_id = none;
  max_attempts = none;
  idempotency_key = some "k2";
}

enqueue_many_atomic_example :
    ((e : Error) × (enqueue_many 1000 "r" (entry ∷ []) board ≡ (board, raised e)))
    ⊎ (enqueue_many 1000 "r" (entry ∷ []) board ≡ (
      with_plan 1000 "r" (entry ∷ []) board,
      returned (map task_id_of (rows_for 1000 "r" board.next_id (entry ∷ []))),
    ))
enqueue_many_atomic_example = enqueue_many_atomic 1000 "r" (entry ∷ []) board

empty-IsWellFormed : IsWellFormed empty_board
empty-IsWellFormed = empty_board-IsWellFormed

abbrev issue_board : TaskBoard
issue_board = (enqueue_issue_work same_case 1000 "r" "o" "p" 1 2 empty_board).0

accepted : (enqueue_issue_work same_case 1000 "r" "o" "p" 1 2 empty_board).1 ≡ returned (some 1)
unfolding claim_attempt token_of run apply board_after enqueue insert_task stripped strip
    is_reserved conflicts new_row or_existing update_task get_task update_where count_where
    first_where empty_board start enqueue_issue_work is_valid_pickup inflight commit_or_rollback
    insert_both issue_key insert_pickup
accepted = refl

pickup_within_cap_example :
    (inflight issue_board ≡ inflight empty_board + 1)
    × (inflight issue_board ≤ 2)
    × (2 ≤ 4)
    × (get_task 1 issue_board ≡ some (new_row 1000 1 (issue_task same_case "r" "o" "p" 1)))
pickup_within_cap_example =
    pickup_within_cap same_case 1000 "r" "o" "p" 1 2 empty_board 1 empty-IsWellFormed accepted

pickup_once_example :
    enqueue_issue_work same_case 5000 "s" "o" "p" 1 3 (run same_case issue_board recovery)
    ≡ (run same_case issue_board recovery, returned none)
unfolding is_valid_pickup
pickup_once_example =
    pickup_once same_case 1000 "r" "o" "p" 1 2 empty_board 1 5000 3 "s" recovery accepted refl

abbrev issue_ops : List Op
issue_ops = Operations.issue_op 1000 "r" "o" "p" 1 2 ∷ []

issue_board-IsWellFormed : IsWellFormed issue_board
unfolding run apply
issue_board-IsWellFormed = run-IsWellFormed same_case issue_ops

abbrev issue_row : TaskRecord
issue_row = new_row 1000 1 (issue_task same_case "r" "o" "p" 1)

issue_found : get_task 1 issue_board ≡ some issue_row
unfolding claim_attempt token_of run apply board_after enqueue insert_task stripped strip
    is_reserved conflicts new_row or_existing update_task get_task update_where count_where
    first_where empty_board start enqueue_issue_work is_valid_pickup inflight commit_or_rollback
    insert_both issue_key insert_pickup
issue_found = refl

live_lease_survives_example :
    (get_task 1 (recover_stalled 2000 (λ id. 2001) 0 issue_board).0 ≡ some issue_row)
    × (get_task 1 (requeue_running 2000 (λ id. 2001) issue_board).0 ≡ some issue_row)
unfolding new_row
live_lease_survives_example =
    live_lease_survives 2000 (λ id. 2001) 0 1 issue_board issue_row issue_board-IsWellFormed
      issue_found refl (omega arith)
