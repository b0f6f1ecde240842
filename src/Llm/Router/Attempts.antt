-- ===== src/Llm/Router/Attempts.antt =====
-- How many requests a completion sends, and what becomes of its reservations.
use hive_os.Base.{
  some, ◌++◌, ◌⊎◌, ◌&&◌, refl, sym, ◌∙◌, inl, inr, Bool-cases, str_eq_iff, Option-cases, not, ℕ,
  zero, suc, ◌+◌, ◌*◌, ◌≤◌, String, Bool, true, false, Option, none, List, [], ◌∷◌, ◌≡◌, length,
  length-append, arith, if◌then◌else◌, str_eq,
}
use hive_os.Llm.Failover.{
  FailoverReason, ok, rate_limit, overloaded, timeout, unknown, auth, billing, format_error,
  context_overflow, ClassifiedError, classify, RetryPolicy, Failure,
}
use hive_os.Table.{count_where}
use hive_os.Table.Rows.{count_where-append}
use hive_os.Llm.CredentialPool.{acquire, CredentialPool, PooledCredential}
use hive_os.Llm.Router.{
  TaskKind, Models, model_chain, Sent, is_unbilled, answered, failed, cancelled, Reservation,
  granted, over_cap, ledger_down, Reply, Session, release_spend, request, after_error, after_reply,
  attempt_once, attempts, chain, complete,
}

-- The failures after which the provider may still bill the request.
abbrev pub may_bill : FailoverReason → Bool
may_bill auth = false
may_bill billing = false
may_bill format_error = false
may_bill context_overflow = false
may_bill _ = true

abbrev pub times : String → List String → ℕ
times id ids = count_where (λ x. str_eq x id) ids

module _ (hints_overflow : String → Bool) (cut : String → String) (reserve : ℕ → Reservation)
    (has_release : Bool) (clock : ℕ → ℕ) (provider : ℕ → String → String → Reply) where
  sent-after_error :
      (now : ℕ) (id : String) (cred : PooledCredential) (ce : ClassifiedError) (s : Session)
      → (after_error hints_overflow cut reserve has_release clock provider now id cred ce s).sent
        ≡ s.sent
  unfolding after_error release_spend
  sent-after_error now id cred ce s = ground arith

  request-sent :
      (n : ℕ) (model id : String) (cred : PooledCredential) (s : Session)
      → (request hints_overflow cut reserve has_release clock provider n model id cred s).0.sent
        ≡ s.sent
  unfolding request after_reply
  request-sent n model id cred s = ground (arith, sent-after_error (clock n) id cred _ s)

  attempt_once-sent :
      (model : String) (last : Option ClassifiedError) (s : Session)
      → length
          (attempt_once hints_overflow cut reserve has_release clock provider model last s).0.sent
        ≤ length s.sent + 1
  unfolding attempt_once release_spend
  attempt_once-sent model last s =
      grind (arith, request-sent (length s.reserved) model, length-append s.sent)

  attempts-sent :
      (model : String) (left : ℕ) (last : Option ClassifiedError) (s : Session)
      → length
          (attempts hints_overflow cut reserve has_release clock provider model left last s).0.sent
        ≤ length s.sent + left
  unfolding attempts
  attempts-sent model zero last s = omega arith
  attempts-sent model (suc left) last s =
      grind (arith, attempts-sent model left, attempt_once-sent model last s)

  chain-sent :
      (n : ℕ) (models : List String) (last : Option ClassifiedError) (s : Session)
      → length (chain hints_overflow cut reserve has_release clock provider n models last s).0.sent
        ≤ length s.sent + length models * n
  unfolding chain
  chain-sent n [] last s = omega arith
  chain-sent n (model ∷ models) last s = ground (
    arith,
    attempts-sent model n last s,
    chain-sent n models
        (attempts hints_overflow cut reserve has_release clock provider model n last s).1.0
        (attempts hints_overflow cut reserve has_release clock provider model n last s).0,
  )

  length-model_chain_le : (kind : TaskKind) (models : Models) → length (model_chain kind models) ≤ 2
  unfolding model_chain
  length-model_chain_le kind models = grind arith

  -- A completion sends at most as many requests as twice the attempts of the retry policy, and none
  -- when the budget gate refuses it, whatever the provider, the ledger and the clock answer.
  pub requests_bounded :
      (allowed : Bool) (kind : TaskKind) (models : Models) (retry : RetryPolicy)
      (pool : CredentialPool)
      → length
          (complete hints_overflow cut reserve has_release clock provider allowed kind models retry
            pool).0.sent
        ≤ (if allowed then 2 * retry.max_attempts else 0)
  unfolding complete
  requests_bounded true kind models retry pool =
      let s : Session = record { pool = pool; sent = []; reserved = []; released = [] } in
      total (length (model_chain kind models)) (length-model_chain_le kind models)
        (chain-sent retry.max_attempts (model_chain kind models) none s)
    where
      total :
          (k : ℕ) → k ≤ 2 → {m : ℕ} → m ≤ 0 + k * retry.max_attempts → m ≤ 2 * retry.max_attempts
      total zero small h = omega arith
      total (suc zero) small h = omega arith
      total (suc (suc zero)) small h = omega arith
      total (suc (suc (suc k))) small h = absurd (omega arith)
  requests_bounded false kind models retry pool = omega arith

module _ (hints_overflow : String → Bool) (cut : String → String) (reserve : ℕ → Reservation)
    (clock : ℕ → ℕ) (provider : ℕ → String → String → Reply) where
  -- Whether the provider may bill a request: unless it confirms, by its error, that it did not run it.
  pub is_billable : Sent → Bool
  is_billable q = elim (provider q.number q.model q.key) [
    | answered text tired ↦ true
    | cancelled ↦ true
    | failed failure ↦ elim (classify hints_overflow cut failure) [
      | none ↦ true
      | some ce ↦ may_bill ce.reason
    ]
  ]

  -- How often a reservation went out with a request that may be billed.
  abbrev pub billable : String → List Sent → ℕ
  billable id sent = count_where (λ q. str_eq q.reservation id && is_billable q) sent

  abbrev pub Accounted : String → Session → Type 0
  Accounted id s = times id s.reserved ≡ times id s.released + billable id s.sent

  module _ (id : String) (named : str_eq id "" ≡ false) where
    release_spend-times :
        (x : String) (s : Session)
        → (times id (release_spend true x s).released ≡ times id s.released + times id (x ∷ []))
          × (((release_spend true x s).reserved ≡ s.reserved)
              × ((release_spend true x s).sent ≡ s.sent))
    unfolding release_spend count_where
    release_spend-times x s = elim (Bool-cases (str_eq x "")) [
      | inl empty ↦
          let is : x ≡ "" = (str_eq_iff x "").0 empty in
          let other : str_eq x id ≡ false = elim (Bool-cases (str_eq x id)) [
            | inl hit ↦ absurd (
                let back : id ≡ "" = sym ((str_eq_iff x id).0 hit) ∙ is in
                let bad : true ≡ false = sym ((str_eq_iff id "").1 back) ∙ named in cc)
            | inr miss ↦ miss
          ] in
          rw (empty, other) (omega arith, (refl, refl))
      | inr full ↦ rw full (count_where-append (λ y. str_eq y id) s.released (x ∷ []), (refl, refl))
    ]

    Reply-cases :
        (r : Reply)
        → ((text : String) × (tired : Option ℕ) × (r ≡ answered text tired))
          ⊎ ((r ≡ cancelled) ⊎ ((failure : Failure) × (r ≡ failed failure)))
    Reply-cases (answered text tired) = inl (text, tired, refl)
    Reply-cases (failed failure) = inr (inr (failure, refl))
    Reply-cases cancelled = inr (inl refl)

    may_bill-is_unbilled : (r : FailoverReason) → may_bill r ≡ not (is_unbilled r)
    may_bill-is_unbilled ok = refl
    may_bill-is_unbilled auth = refl
    may_bill-is_unbilled billing = refl
    may_bill-is_unbilled rate_limit = refl
    may_bill-is_unbilled context_overflow = refl
    may_bill-is_unbilled overloaded = refl
    may_bill-is_unbilled timeout = refl
    may_bill-is_unbilled format_error = refl
    may_bill-is_unbilled unknown = refl

    after_error-times :
        (now : ℕ) (x : String) (cred : PooledCredential) (ce : ClassifiedError) (s : Session)
        → let t = after_error hints_overflow cut reserve true clock provider now x cred ce s in
          (times id t.released
            ≡ times id s.released + (if may_bill ce.reason then 0 else times id (x ∷ [])))
          × ((t.reserved ≡ s.reserved) × (t.sent ≡ s.sent))
    unfolding after_error
    after_error-times now x cred ce s =
        let r = release_spend-times x s in
        elim (Bool-cases (is_unbilled ce.reason)) [
          | inl free ↦ elim (Bool-cases ce.should_rotate_credential) [
            | inl rotate ↦ rw (may_bill-is_unbilled ce.reason, free, rotate) r
            | inr stay ↦ rw (may_bill-is_unbilled ce.reason, free, stay) r
          ]
          | inr billed ↦ elim (Bool-cases ce.should_rotate_credential) [
            | inl rotate ↦
                rw (may_bill-is_unbilled ce.reason, billed, rotate) (omega arith, (refl, refl))
            | inr stay ↦
                rw (may_bill-is_unbilled ce.reason, billed, stay) (omega arith, (refl, refl))
          ]
        ]

    request-times :
        (n : ℕ) (model x : String) (cred : PooledCredential) (s : Session)
        → let t = (request hints_overflow cut reserve true clock provider n model x cred s).0 in
          let q : Sent = record { number = n; reservation = x; model = model; key = cred.key } in
          (times id t.released
            ≡ times id s.released + (if is_billable q then 0 else times id (x ∷ [])))
          × ((t.reserved ≡ s.reserved) × (t.sent ≡ s.sent))
    unfolding request after_reply is_billable
    request-times n model x cred s = elim (Reply-cases (provider n model cred.key)) [
      | inl (text, tired, e) ↦ rw (e, request, is_billable) (omega arith, (refl, refl))
      | inr (inl e) ↦ rw (e, request, is_billable) (omega arith, (refl, refl))
      | inr (inr (failure, e)) ↦ elim (Option-cases (classify hints_overflow cut failure)) [
        | inl odd ↦ rw (e, request, is_billable, odd) (omega arith, (refl, refl))
        | inr (ce, known) ↦
            rw (e, request, is_billable, known) (after_error-times (clock n) x cred ce s)
      ]
    ]

    Reservation-cases :
        (r : Reservation) → ((x : String) × (r ≡ granted x)) ⊎ ((r ≡ over_cap) ⊎ (r ≡ ledger_down))
    Reservation-cases (granted x) = inl (x, refl)
    Reservation-cases over_cap = inr (inl refl)
    Reservation-cases ledger_down = inr (inr refl)

    request-billed :
        (q : Sent)
        → billable id (q ∷ []) + (if is_billable q then 0 else times id (q.reservation ∷ []))
          ≡ times id (q.reservation ∷ [])
    unfolding count_where
    request-billed q = ground arith

    -- A request under a new reservation keeps the account.
    request-Accounted :
        (n : ℕ) (model x : String) (cred : PooledCredential) (pool : CredentialPool) (s : Session)
        → Accounted id s
        → Accounted id
            (request hints_overflow cut reserve true clock provider n model x cred (record s {
              reserved = s.reserved ++ x ∷ [];
              pool = pool;
              sent =
                  s.sent
                  ++ (record { number = n; reservation = x; model = model; key = cred.key }) ∷ [];
            })).0
    request-Accounted n model x cred pool s h =
        let q : Sent = record { number = n; reservation = x; model = model; key = cred.key } in
        let out : Session = record s {
          reserved = s.reserved ++ x ∷ [];
          pool = pool;
          sent = s.sent ++ q ∷ [];
        } in
        let done = request-times n model x cred out in
        let held = count_where-append (λ y. str_eq y id) s.reserved (x ∷ []) in
        let gone =
          count_where-append (λ (r : Sent). str_eq r.reservation id && is_billable r) s.sent
            (q ∷ []) in
        rw (done.1.0, done.1.1) (omega (arith, done.0, held, gone, request-billed q, h))

    attempt_once-Accounted :
        (model : String) (last : Option ClassifiedError) (s : Session)
        → Accounted id s
        → Accounted id (attempt_once hints_overflow cut reserve true clock provider model last s).0
    unfolding attempt_once
    attempt_once-Accounted model last s h =
        let n = length s.reserved in
        elim (Reservation-cases (reserve n)) [
          | inr (inl e) ↦ rw (e, attempt_once) h
          | inr (inr e) ↦ rw (e, attempt_once) h
          | inl (x, e) ↦ elim (Option-cases (acquire (clock n) s.pool).1) [
            | inl nothing ↦
                let held : Session = record s { reserved = s.reserved ++ x ∷ [] } in
                let back = release_spend-times x held in
                let more = count_where-append (λ y. str_eq y id) s.reserved (x ∷ []) in
                rw (e, attempt_once, nothing, back.1.0, back.1.1) (omega (arith, back.0, more, h))
            | inr (cred, ready) ↦
                rw (e, attempt_once, ready)
                  (request-Accounted n model x cred (acquire (clock n) s.pool).0 s h)
          ]
        ]

    attempts-Accounted :
        (model : String) (left : ℕ) (last : Option ClassifiedError) (s : Session)
        → Accounted id s
        → Accounted id (attempts hints_overflow cut reserve true clock provider model left last s).0
    unfolding attempts
    attempts-Accounted model zero last s h = h
    attempts-Accounted model (suc left) last s h =
        grind (arith, attempts-Accounted model left, attempt_once-Accounted model last s h)

    chain-Accounted :
        (n : ℕ) (models : List String) (last : Option ClassifiedError) (s : Session)
        → Accounted id s
        → Accounted id (chain hints_overflow cut reserve true clock provider n models last s).0
    unfolding chain
    chain-Accounted n [] last s h = h
    chain-Accounted n (model ∷ models) last s h =
        grind (arith, attempts-Accounted model n last s h, chain-Accounted n models)

  -- Where reservations can be released, a completion makes a reservation that has a name exactly as often as it releases
  -- it and sends a request with it that the provider may bill, taken together: none is kept without such a request, none
  -- is released twice, and none is released that such a request went out with.
  pub reservations-Accounted :
      (id : String) (allowed : Bool) (kind : TaskKind) (models : Models) (retry : RetryPolicy)
      (pool : CredentialPool)
      → str_eq id "" ≡ false
      → Accounted id
          (complete hints_overflow cut reserve true clock provider allowed kind models retry pool).0
  unfolding complete count_where
  reservations-Accounted id true kind models retry pool named =
      chain-Accounted id named retry.max_attempts (model_chain kind models) none
        (record { pool = pool; sent = []; reserved = []; released = [] }) refl
  reservations-Accounted id false kind models retry pool named = refl
