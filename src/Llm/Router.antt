-- ===== src/Llm/Router.antt =====
-- `ModelRouter.complete` on the executor: src/hive/llm/router.py. The provider, the spend ledger and
-- the clock answer by the number of the reservation, so that they may answer anew each time; the
-- planner, the events and the request's contents are not modelled.
pub mod Attempts
use hive_os.Base.{
  ℕ, zero, suc, ◌+◌, ◌*◌, String, Bool, true, false, not, ◌&&◌, Option, none, some, List, [], ◌∷◌,
  ◌++◌, ◌==◌, if◌then◌else◌, str_eq, length,
}
use hive_os.Llm.Failover.{
  FailoverReason, auth, billing, format_error, context_overflow, Failure, ClassifiedError, classify,
  RetryPolicy,
}
use hive_os.Llm.CredentialPool.{
  PooledCredential, CredentialPool, acquire, report_success, report_failure, cool,
}

pub data TaskKind : Type 0 where
  plan execute aux : TaskKind

pub record Models : Type 0 where
  pub exec_model : String
  pub exec_fallback_model : String
  pub aux_model : String

unfoldable pub model_chain : TaskKind → Models → List String
model_chain aux m = m.aux_model ∷ []
model_chain _ m =
    if str_eq m.exec_fallback_model m.exec_model
    then m.exec_model ∷ []
    else m.exec_model ∷ m.exec_fallback_model ∷ []

-- What `spend_reserve` does: grant an id, answer None, or raise.
pub data Reservation : Type 0 where
  granted : String → Reservation
  over_cap ledger_down : Reservation

-- What the adapter does. `tired` is the cooldown, if any, that the reply's rate-limit window asks for.
pub data Reply : Type 0 where
  answered : String → Option ℕ → Reply
  failed : Failure → Reply
  cancelled : Reply

pub data Outcome : Type 0 where
  completed : String → Outcome
  budget_error : Bool → Outcome
  no_api_key all_cooling : Outcome
  provider_error : ClassifiedError → Outcome
  exhausted interrupted unclassified : Outcome

-- A request that went out: the number of the attempt and its reservation, the model and the key.
pub record Sent : Type 0 where
  pub number : ℕ
  pub reservation : String
  pub model : String
  pub key : String

-- One run of `complete`: the requests that went out, and the reservations.
pub record Session : Type 0 where
  pub pool : CredentialPool
  pub sent : List Sent
  pub reserved : List String
  pub released : List String

-- The exits of one attempt.
pub data Attempt : Type 0 where
  ended : Outcome → Attempt
  errored : ClassifiedError → Attempt

-- The errors that `_release_after_provider_error` releases for.
abbrev pub is_unbilled : FailoverReason → Bool
is_unbilled auth = true
is_unbilled billing = true
is_unbilled format_error = true
is_unbilled context_overflow = true
is_unbilled _ = false

-- Without a ledger the id is empty; `has_release` is `self._spend_release is not None`.
unfoldable pub release_spend : Bool → String → Session → Session
release_spend has_release id s =
    if not (str_eq id "") && has_release then record s { released = s.released ++ id ∷ [] } else s

module _ (hints_overflow : String → Bool) (cut : String → String) (reserve : ℕ → Reservation)
    (has_release : Bool) (clock : ℕ → ℕ) (provider : ℕ → String → String → Reply) where
  -- The pool handed out nothing.
  unfoldable pub without_credential : Option ClassifiedError → Session → Outcome
  without_credential last s =
      if length s.pool.creds == 0
      then no_api_key
      else elim last [ none ↦ all_cooling | some ce ↦ provider_error ce ]

  unfoldable pub after_error : ℕ → String → PooledCredential → ClassifiedError → Session → Session
  unfolding release_spend
  after_error now id cred ce s =
      let s' = if is_unbilled ce.reason then release_spend has_release id s else s in
      if ce.should_rotate_credential
      then record s' { pool = report_failure now cred.key none s'.pool }
      else s'

  unfoldable pub after_reply : ℕ → PooledCredential → Option ℕ → Session → Session
  after_reply now cred tired s =
      let pool = report_success cred.key s.pool in
      record s { pool = elim tired [ none ↦ pool | some span ↦ cool now cred.key span pool ] }

  -- The request that went out and its reply.
  unfoldable pub request : ℕ → String → String → PooledCredential → Session → Session × Attempt
  unfolding after_error after_reply
  request n model id cred s = elim (provider n model cred.key) [
    | cancelled ↦ (s, ended interrupted)
    | answered text tired ↦ (after_reply (clock n) cred tired s, ended (completed text))
    | failed failure ↦ elim (classify hints_overflow cut failure) [
      | none ↦ (s, ended unclassified)
      | some ce ↦ (after_error (clock n) id cred ce s, errored ce)
    ]
  ]

  unfoldable pub attempt_once : String → Option ClassifiedError → Session → Session × Attempt
  unfolding without_credential request release_spend
  attempt_once model last s =
      let n = length s.reserved in
      elim (reserve n) [
        | over_cap ↦ (s, ended (budget_error true))
        | ledger_down ↦ (s, ended (budget_error false))
        | granted id ↦
            let held : Session = record s { reserved = s.reserved ++ id ∷ [] } in
            elim (acquire (clock n) s.pool).1 [
              | none ↦ (release_spend has_release id held, ended (without_credential last s))
              | some cred ↦ request n model id cred (record held {
                pool = (acquire (clock n) s.pool).0;
                sent =
                    s.sent
                    ++ (record { number = n; reservation = id; model = model; key = cred.key })
                      ∷ [];
              })
            ]
      ]

  -- `for attempt in range(max_attempts)` from the attempt before the `left` last ones: an outcome, or
  -- none for the next model. The last attempt has `left` zero and does not retry.
  unfoldable pub attempts :
      String
      → ℕ
      → Option ClassifiedError
      → Session
      → Session × (Option ClassifiedError × Option Outcome)
  unfolding attempt_once
  attempts model zero last s = (s, (last, none))
  attempts model (suc left) last s =
      let tried = attempt_once model last s in
      let again = λ (ce : ClassifiedError). attempts model left (some ce) tried.0 in
      elim tried.1 [
        | ended outcome ↦ (tried.0, (last, some outcome))
        | errored ce ↦ elim left [
          | suc _ ↦
              (if ce.retryable
                then again ce
                else if ce.should_fallback
                then (tried.0, (some ce, none))
                else (tried.0, (some ce, some (provider_error ce))))
          | zero ↦
              (if ce.should_fallback
                then (tried.0, (some ce, none))
                else (tried.0, (some ce, some (provider_error ce))))
        ]
      ]

  unfoldable pub chain : ℕ → List String → Option ClassifiedError → Session → Session × Outcome
  unfolding attempts
  chain max_attempts [] last s = (s, exhausted)
  chain max_attempts (model ∷ models) last s =
      let tried = attempts model max_attempts last s in
      let next = chain max_attempts models tried.1.0 tried.0 in
      elim tried.1.1 [ some outcome ↦ (tried.0, outcome) | none ↦ next ]

  -- `complete` without a planner; `allowed` is the budget gate's answer.
  unfoldable pub complete :
      Bool → TaskKind → Models → RetryPolicy → CredentialPool → Session × Outcome
  unfolding chain model_chain
  complete allowed kind models retry pool =
      let s : Session = record { pool = pool; sent = []; reserved = []; released = [] } in
      if not allowed
      then (s, budget_error true)
      else chain retry.max_attempts (model_chain kind models) none s
