-- ===== src/Autonomy/Tasks/Lifecycle.antt =====
-- The operations on one claimed task: from claim_attempt to retry in
-- src/hive/autonomy/tasks.py. `now` is what `self._clock()` returns.
use Prim.Native.String.{[], ◌∷◌}
use hive_os.Base.{
  ℕ, zero, suc, ◌+◌, String, Bool, true, false, not, Option, none, some, List, ◌&&◌, ◌||◌, ltb, leb,
  ◌==◌, if◌then◌else◌, min, max, str_eq,
}
use hive_os.Dict.{put}
use hive_os.Table.{first_where}
use hive_os.Autonomy.Tasks.{
  pending, running, awaiting_approval, done, failed, dead, cancelled, state_eq, Value, Payload,
  seconds, max_rate_limit_deferrals, TaskRecord, TaskBoard, fence, update_task, get_task,
}

-- error[:500]
unfoldable pub clip : ℕ → String → String
clip zero s = []
clip (suc n) [] = []
clip (suc n) (c ∷ s) = c ∷ clip n s

-- attempts-rate_limit_count < max_attempts, over the integers
abbrev pub has_budget : TaskRecord → Bool
has_budget t = ltb t.attempts (t.max_attempts + t.rate_limit_count)

abbrev pub claimable : TaskRecord → Bool
claimable t = state_eq t.state pending && has_budget t

abbrev pub exhausted : TaskRecord → Bool
exhausted t = state_eq t.state pending && not (has_budget t)

unfoldable pub start : ℕ → String → TaskRecord → TaskRecord
start now run t = record t {
  state = running;
  updated_ts = now;
  attempts = t.attempts + 1;
  run_id = if str_eq t.run_id "" then run else t.run_id;
}

unfoldable pub bury : ℕ → TaskRecord → TaskRecord
bury now t = record t {
  state = dead;
  updated_ts = now;
  last_error = some "maximum attempts exhausted before claim";
}

unfoldable pub token_of : ℕ → List TaskRecord → Option ℕ
token_of task_id rows =
    elim (first_where (λ (t : TaskRecord). (t.id == task_id) && state_eq t.state running) rows) [
      | none ↦ none
      | some t ↦ some t.attempts
    ]

-- Returns the fencing token of the attempt. `run` is the effective run id.
unfoldable pub claim_attempt : ℕ → String → ℕ → TaskBoard → TaskBoard × Option ℕ
unfolding start bury
claim_attempt now run task_id b =
    let (claimed, hit) = update_task task_id claimable (start now run) b in
    if hit
    then (claimed, token_of task_id claimed.rows)
    else ((update_task task_id exhausted (bury now) claimed).0, none)

unfoldable pub claim : ℕ → String → ℕ → TaskBoard → TaskBoard × Bool
unfolding claim_attempt
claim now run task_id b =
    let (b', token) = claim_attempt now run task_id b in
    (b', elim token [ none ↦ false | some n ↦ true ])

abbrev pub finishable : Option ℕ → TaskRecord → Bool
finishable expected t =
    (state_eq t.state running || state_eq t.state awaiting_approval) && fence expected t

unfoldable pub finish : ℕ → TaskRecord → TaskRecord
finish now t = record t { state = done; updated_ts = now; last_error = none }

unfoldable pub complete : ℕ → ℕ → Option ℕ → TaskBoard → TaskBoard × Bool
unfolding finish
complete now task_id expected b = update_task task_id (finishable expected) (finish now) b

abbrev pub owned : Option ℕ → TaskRecord → Bool
owned expected t = state_eq t.state running && fence expected t

park : ℕ → Payload → TaskRecord → TaskRecord
park now payload t = record t {
  state = awaiting_approval;
  payload = payload;
  updated_ts = now;
  last_error = none;
}

unfoldable pub await_approval : ℕ → ℕ → String → Option ℕ → TaskBoard → TaskBoard × Bool
unfolding park get_task
await_approval now task_id approval_id expected b = elim (get_task task_id b) [
  | none ↦ (b, false)
  | some t ↦
      let payload = put "approval_id" (Value.text approval_id) t.payload in
      update_task task_id (owned expected) (park now payload) b
]

fail_row : ℕ → String → TaskRecord → TaskRecord
unfolding clip
fail_row now error t = record t {
  state = failed;
  updated_ts = now;
  last_error = some (clip 500 error);
}

unfoldable pub fail_if_running : ℕ → ℕ → String → Option ℕ → TaskBoard → TaskBoard × Bool
unfolding fail_row
fail_if_running now task_id error expected b =
    update_task task_id (owned expected) (fail_row now error) b

unfoldable pub fail : ℕ → ℕ → String → TaskBoard → TaskBoard
unfolding fail_row
fail now task_id error b = (update_task task_id (λ t. true) (fail_row now error) b).0

-- `float(retry_after_seconds)`: not a number at all, NaN or infinite, negative, or milliseconds.
pub data Delay : Type 0 where
  unparsable not_finite negative : Delay
  milliseconds : ℕ → Delay

-- min(delay, 3600.0) if the value is finite and positive, else the fallback
unfoldable pub bounded_delay : ℕ → Delay → ℕ
bounded_delay fallback unparsable = fallback
bounded_delay fallback not_finite = fallback
bounded_delay fallback negative = fallback
bounded_delay fallback (milliseconds n) = if ltb 0 n then min n (seconds 3600) else fallback

unfoldable pub retry_row : ℕ → String → ℕ → TaskRecord → TaskRecord
unfolding clip
retry_row now error delay t = record t {
  state = if has_budget t then pending else dead;
  updated_ts = now;
  last_error = some (clip 500 error);
  scheduled_for =
      if not (has_budget t) || delay == 0
      then t.scheduled_for
      else max t.scheduled_for (now + delay);
}

unfoldable pub retry_or_dead : ℕ → ℕ → String → Option ℕ → Delay → TaskBoard → TaskBoard × Bool
unfolding retry_row bounded_delay
retry_or_dead now task_id error expected retry_after b =
    update_task task_id (owned expected) (retry_row now error (bounded_delay 0 retry_after)) b

unfoldable pub defer_row : ℕ → ℕ → TaskRecord → TaskRecord
defer_row now delay t = record t {
  state = if leb max_rate_limit_deferrals (t.rate_limit_count + 1) then dead else pending;
  rate_limit_count = t.rate_limit_count + 1;
  updated_ts = now;
  last_error = some "tool rate limited";
  scheduled_for = max t.scheduled_for (now + delay);
}

unfoldable pub defer_rate_limited : ℕ → ℕ → ℕ → Delay → TaskBoard → TaskBoard × Bool
unfolding defer_row bounded_delay
defer_rate_limited now task_id expected retry_after b =
    update_task task_id (owned (some expected))
      (defer_row now (bounded_delay (seconds 60) retry_after)) b

unfoldable pub cancel : ℕ → ℕ → TaskBoard → TaskBoard × Bool
cancel now task_id b =
    update_task task_id (λ t. state_eq t.state pending)
      (λ t. record t { state = cancelled; updated_ts = now }) b

unfoldable pub cancel_running : ℕ → ℕ → ℕ → TaskBoard → TaskBoard × Bool
cancel_running now task_id expected b =
    update_task task_id (owned (some expected))
      (λ t. record t { state = cancelled; updated_ts = now; last_error = none }) b

unfoldable pub touch_running : ℕ → ℕ → ℕ → TaskBoard → TaskBoard × Bool
touch_running now task_id expected b =
    update_task task_id (owned (some expected)) (λ t. record t { updated_ts = now }) b

unfoldable pub retry : ℕ → ℕ → TaskBoard → TaskBoard × Bool
retry now task_id b =
    update_task task_id (λ t. state_eq t.state failed && has_budget t)
      (λ t. record t { state = pending; updated_ts = now }) b
