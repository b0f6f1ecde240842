-- ===== src/Llm/Failover.antt =====
-- The failover taxonomy: src/hive/llm/failover.py. A provider's exception is a value of `Failure`.
use hive_os.Base.{
  ℕ, ◌*◌, ◌^◌, String, Bool, true, false, Option, none, some, ◌||◌, leb, ◌==◌, min, if◌then◌else◌,
}

-- FailoverReason
pub data FailoverReason : Type 0 where
  ok auth billing rate_limit context_overflow overloaded timeout format_error unknown :
      FailoverReason

-- An exception of the HTTP client: a status with the body's text, a timeout, a transport error, or
-- another one, each with its message.
pub data Failure : Type 0 where
  http_status : ℕ → String → Failure
  timed_out : String → Failure
  transport : String → Failure
  unexpected : String → Failure

pub record ClassifiedError : Type 0 where
  pub reason : FailoverReason
  pub retryable : Bool
  pub should_rotate_credential : Bool
  pub should_compress : Bool
  pub should_fallback : Bool
  pub status : Option ℕ
  pub detail : String

-- A row of _POLICY: retryable, rotate, compress, fallback.
pub record Policy : Type 0 where
  pub retryable : Bool
  pub rotate : Bool
  pub compress : Bool
  pub fallback : Bool

row : Bool → Bool → Bool → Bool → Policy
row a b c d = record { retryable = a; rotate = b; compress = c; fallback = d }

-- `ok` has no row: no classification gives it.
unfoldable pub policy : FailoverReason → Option Policy
unfolding row
policy FailoverReason.ok = none
policy auth = some (row true true false true)
policy billing = some (row false true false true)
policy rate_limit = some (row true true false true)
policy context_overflow = some (row false false true true)
policy overloaded = some (row true false false true)
policy timeout = some (row true false false true)
policy format_error = some (row false false false false)
policy unknown = some (row false false false true)

-- `str.lower`, `in` on strings and `str[:500]` are the runtime's.
module _ (hints_overflow : String → Bool) (cut : String → String) where
  unfoldable pub reason_for_status : ℕ → String → FailoverReason
  reason_for_status status body =
      if (status == 401) || (status == 403)
      then auth
      else if status == 402
      then billing
      else if status == 429
      then rate_limit
      else if (status == 408) || (status == 504)
      then timeout
      else if status == 413
      then context_overflow
      else if status == 400
      then (if hints_overflow body then context_overflow else format_error)
      else if leb 500 status
      then overloaded
      else unknown

  unfoldable pub reason_of : Failure → FailoverReason
  unfolding reason_for_status
  reason_of (http_status status body) = reason_for_status status (cut body)
  reason_of (timed_out message) = timeout
  reason_of (transport message) = overloaded
  reason_of (unexpected message) = unknown

  status_of : Failure → Option ℕ
  status_of (http_status status body) = some status
  status_of _ = none

  detail_of : Failure → String
  detail_of (http_status status body) = cut body
  detail_of (timed_out message) = message
  detail_of (transport message) = message
  detail_of (unexpected message) = message

  -- None where `_POLICY[reason]` would raise a KeyError.
  unfoldable pub classify : Failure → Option ClassifiedError
  unfolding reason_of status_of detail_of policy
  classify failure = elim (policy (reason_of failure)) [
    | none ↦ none
    | some p ↦ some (record {
      reason = reason_of failure;
      retryable = p.retryable;
      should_rotate_credential = p.rotate;
      should_compress = p.compress;
      should_fallback = p.fallback;
      status = status_of failure;
      detail = detail_of failure;
    })
  ]

-- RetryPolicy, in milliseconds.
pub record RetryPolicy : Type 0 where
  pub max_attempts : ℕ
  pub base_delay : ℕ
  pub max_delay : ℕ

abbrev pub default_retry : RetryPolicy
default_retry = record { max_attempts = 3; base_delay = 500; max_delay = 8000 }

-- `ceiling` of `backoff`: the jitter takes between half of it and all of it.
unfoldable pub ceiling : ℕ → RetryPolicy → ℕ
ceiling attempt p = min p.max_delay (p.base_delay * 2 ^ attempt)
