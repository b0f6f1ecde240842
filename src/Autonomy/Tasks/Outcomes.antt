-- ===== src/Autonomy/Tasks/Outcomes.antt =====
-- What becomes of an attempt that did not succeed.
use hive_os.Base.{
  ℕ, ◌+◌, ◌≤◌, ◌<◌, String, some, ◌≡◌, refl, ◌∙◌, sym, arith, if◌then◌else◌, leb, max, ◌==◌,
}
use hive_os.Autonomy.Tasks.{pending, dead, seconds, TaskRecord, TaskBoard, get_task}
use hive_os.Autonomy.Tasks.Lifecycle.{
  Delay, bounded_delay, owned, start, claim_attempt, retry_row, retry_or_dead, defer_row,
  defer_rate_limited,
}
use hive_os.Autonomy.Tasks.RowRules.{get_task-update_hit}
use hive_os.Autonomy.Tasks.Fencing.{claim_attempt_granted}
use hive_os.Autonomy.Tasks.Invariant.{IsWellFormed}

-- A delay is at most an hour, and the fallback stands in for every value that is not positive.
pub bounded_delay-le :
    (fallback : ℕ) (d : Delay) → fallback ≤ seconds 3600 → bounded_delay fallback d ≤ seconds 3600
unfolding bounded_delay
bounded_delay-le fallback Delay.unparsable h = h
bounded_delay-le fallback Delay.not_finite h = h
bounded_delay-le fallback Delay.negative h = h
bounded_delay-le fallback (Delay.milliseconds n) h = ground arith

bounded_delay_pos : (d : Delay) → 0 < bounded_delay (seconds 60) d
unfolding bounded_delay
bounded_delay_pos Delay.unparsable = omega arith
bounded_delay_pos Delay.not_finite = omega arith
bounded_delay_pos Delay.negative = omega arith
bounded_delay_pos (Delay.milliseconds n) = ground arith

module _ (now : ℕ) (worker : String) (task_id token : ℕ) (b : TaskBoard) (h : IsWellFormed b)
    (granted : (claim_attempt now worker task_id b).1 ≡ some token) where
  -- A claim that ends in a rate limit costs no attempt: the difference of attempts and deferrals is
  -- what it was before the claim. The task waits for a later time, at most an hour ahead of the
  -- call unless it was scheduled later, and is dead-lettered at its fifth deferral.
  pub deferral_is_free :
      (at : ℕ) (delay : Delay)
      → let c = (claim_attempt now worker task_id b).0 in
        let d = (defer_rate_limited at task_id token delay c).0 in
        (t u : TaskRecord)
        → get_task task_id b ≡ some t
        → get_task task_id d ≡ some u
        → (u.attempts + t.rate_limit_count ≡ t.attempts + u.rate_limit_count)
          × (u.max_attempts ≡ t.max_attempts)
          × (u.rate_limit_count ≡ t.rate_limit_count + 1)
          × (u.state ≡ (if leb 5 (t.rate_limit_count + 1) then dead else pending))
          × (at < u.scheduled_for)
          × (u.scheduled_for ≤ max t.scheduled_for (at + seconds 3600))
  unfolding defer_rate_limited start
  deferral_is_free at delay t u at_b at_d =
      let (s, found, waiting, budget, is_next, at_c) =
        claim_attempt_granted now worker task_id b token h granted in
      let c : TaskBoard = (claim_attempt now worker task_id b).0 in
      let wait : ℕ = bounded_delay (seconds 60) delay in
      let deferred =
        get_task-update_hit task_id (owned (some token)) (defer_row at wait) (λ r. refl) c
          (start now worker s) at_c (ground arith) in
      let same : some s ≡ some t = sym found ∙ at_b in
      let same' : some (defer_row at wait (start now worker s)) ≡ some u = sym deferred ∙ at_d in
      let short = bounded_delay-le (seconds 60) delay (omega arith) in
      let long = bounded_delay_pos delay in ground arith

  -- A claim whose dispatch fails is requeued while an attempt is left, and dead-lettered after the
  -- last one: the attempts that are no deferrals then number `max_attempts`.
  pub failure_spends_budget :
      (at : ℕ) (error : String) (delay : Delay)
      → let c = (claim_attempt now worker task_id b).0 in
        let d = (retry_or_dead at task_id error (some token) delay c).0 in
        (t u : TaskRecord)
        → get_task task_id b ≡ some t
        → get_task task_id d ≡ some u
        → (u.attempts ≡ t.attempts + 1)
          × (u.state
              ≡ (if t.attempts + 1 == t.max_attempts + t.rate_limit_count then dead else pending))
  unfolding retry_or_dead start
  failure_spends_budget at error delay t u at_b at_d =
      let (s, found, waiting, budget, is_next, at_c) =
        claim_attempt_granted now worker task_id b token h granted in
      let c : TaskBoard = (claim_attempt now worker task_id b).0 in
      let wait : ℕ = bounded_delay 0 delay in
      let requeued =
        get_task-update_hit task_id (owned (some token)) (retry_row at error wait) (λ r. refl) c
          (start now worker s) at_c (ground arith) in
      let same : some s ≡ some t = sym found ∙ at_b in
      let same' : some (retry_row at error wait (start now worker s)) ≡ some u =
        sym requeued ∙ at_d in
      ground arith
