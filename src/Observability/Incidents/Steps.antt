-- ===== src/Observability/Incidents/Steps.antt =====
-- The step relation that every call on the incident ledger refines.
use hive_os.Base.{
  ℕ, ◌≤◌, String, Bool, true, false, Option, none, some, List, [], ◌∷◌, ◌++◌, ◌≡◌, refl, ap, inl,
  inr, ◌⊎◌, Bool-cases, Option-cases, arith, ◌&&◌, ◌||◌, ltb, ◌==◌, str_eq, max, All,
}
use hive_os.Table.{count_where, first_where, update_where}
use hive_os.Observability.Incidents.{
  Status, opened, diagnosing, recovering, awaiting_review, resolved, suppressed, is_open, status_eq,
  Incident, IncidentEvent, IncidentLedger, Error, Result, returned, raised, has_id, is_active,
  has_key, event_of, note, update,
}
use hive_os.Observability.Incidents.Record.{
  Failure, safe_key, fingerprint_of, new_incident, settle, occur, occurrence_of, active_of, write,
  record_failure,
}
use hive_os.Observability.Incidents.Recovery.{
  moved, transition, acknowledge, begin_diagnosis, record_remediation, begin_recovery,
  finish_recovery,
}
use hive_os.Observability.Incidents.Histories.{
  Op, record_op, write_op, acknowledge_op, diagnose_op, remediate_op, recover_op, finish_op, apply,
  run, limit_of,
}

-- What a call may do to a row, where no call allows more than `n` recoveries.
pub record RowStep (n : ℕ) (i j : Incident) : Type 0 where
  pub same_id : j.incident_id ≡ i.incident_id
  pub same_print : j.fingerprint ≡ i.fingerprint
  pub stays_closed : is_open j.status ≡ true → is_open i.status ≡ true
  pub recoveries : i.recovery_count ≤ n → j.recovery_count ≤ n

pub data Step (n : ℕ) : IncidentLedger → IncidentLedger → Type 0 where
  nothing : {l : IncidentLedger} → Step n l l
  followed : {a b c : IncidentLedger} → Step n a b → Step n b c → Step n a c
  updated :
      (l : IncidentLedger) (p : Incident → Bool) (f : Incident → Incident)
      → ((i : Incident) → p i ≡ true → RowStep n i (f i))
      → Step n l (record l { incidents = update_where p f l.incidents })
  noted :
      (l : IncidentLedger) (e : IncidentEvent)
      → str_eq e.occurrence_key "" ≡ true
      → Step n l (record l { events = l.events ++ e ∷ [] })
  occurred :
      (l : IncidentLedger) (e : IncidentEvent)
      → count_where (has_key e.occurrence_key) l.events ≡ 0
      → Step n l (record l { events = l.events ++ e ∷ [] })
  detected :
      (l : IncidentLedger) (i : Incident)
      → count_where (has_id i.incident_id) l.incidents ≡ 0
      → count_where (is_active i.fingerprint) l.incidents ≡ 0
      → i.recovery_count ≡ 0
      → Step n l (record l { incidents = l.incidents ++ i ∷ [] })

-- A status that a test admits is active, where the test refuses both closed ones.
was_open :
    (g : Status → Bool)
    → g resolved ≡ false
    → g suppressed ≡ false
    → (s : Status) → g s ≡ true
    → is_open s ≡ true
was_open g a b resolved e = cc
was_open g a b suppressed e = cc
was_open g a b opened e = refl
was_open g a b diagnosing e = refl
was_open g a b recovering e = refl
was_open g a b awaiting_review e = refl

module _ (n : ℕ) where
  moved-Step :
      (now : ℕ) (id : String) (g : Incident → Bool) (f : Incident → Incident)
      (type evidence : String) (l : IncidentLedger)
      → ((i : Incident) → g i ≡ true → RowStep n i (f i))
      → Step n l (moved now id g f type evidence l).0
  unfolding moved update note
  moved-Step now id g f type evidence l keep =
      elim (Bool-cases (count_where (λ i. has_id id i && g i) l.incidents == 1)) [
        | inl one ↦ rw one (followed first (noted _ (event_of id now type "" evidence) refl))
        | inr other ↦ rw other first
      ]
    where
      first :
          Step n l (record l { incidents = update_where (λ i. has_id id i && g i) f l.incidents })
      first = updated l (λ i. has_id id i && g i) f (λ i hit. keep i (ground arith))

  acknowledge-Step :
      (now : ℕ) (id : String) (l : IncidentLedger) → Step n l (acknowledge now id l).0
  unfolding acknowledge transition
  acknowledge-Step now id l = moved-Step now id _ _ _ _ l (λ i hit. record {
    same_id = refl;
    same_print = refl;
    stays_closed = λ later. hit;
    recoveries = λ h. h;
  })

  begin_diagnosis-Step :
      (now : ℕ) (id run_id evidence : String) (l : IncidentLedger)
      → Step n l (begin_diagnosis now id run_id evidence l).0
  unfolding begin_diagnosis
  begin_diagnosis-Step now id run_id evidence l = moved-Step now id _ _ _ _ l (λ i hit. record {
    same_id = refl;
    same_print = refl;
    stays_closed = λ later. was_open (λ s. status_eq s opened) refl refl i.status hit;
    recoveries = λ h. h;
  })

  record_remediation-Step :
      (now : ℕ) (id : String) (status : Status) (evidence : String) (l : IncidentLedger)
      → Step n l (record_remediation now id status evidence l).0
  unfolding record_remediation
  record_remediation-Step now id status evidence l =
      elim (Bool-cases (
        status_eq status opened
        || (status_eq status awaiting_review || status_eq status resolved))) [
          | inr unsupported ↦ rw unsupported nothing
          | inl supported ↦ rw supported (
              moved-Step now id _ _ _ _ l (λ i hit. record {
                same_id = refl;
                same_print = refl;
                stays_closed =
                    λ later. was_open (λ s. status_eq s diagnosing) refl refl i.status hit;
                recoveries = λ h. h;
              }))
        ]

  begin_recovery-Step :
      (now : ℕ) (id : String) (cooldown limit : ℕ) (l : IncidentLedger)
      → max 1 limit ≤ n
      → Step n l (begin_recovery now id cooldown limit l).0
  unfolding begin_recovery
  begin_recovery-Step now id cooldown limit l fits = moved-Step now id _ _ _ _ l (λ i hit. record {
    same_id = refl;
    same_print = refl;
    stays_closed = λ later.
        was_open (λ s. status_eq s opened || status_eq s diagnosing) refl refl i.status
          (ground arith);
    recoveries = λ h. ground arith;
  })

  finish_recovery-Step :
      (now : ℕ) (id : String) (is_resolved : Bool) (evidence : String) (l : IncidentLedger)
      → Step n l (finish_recovery now id is_resolved evidence l).0
  unfolding finish_recovery
  finish_recovery-Step now id is_resolved evidence l = moved-Step now id _ _ _ _ l (λ i hit.
      record {
        same_id = refl;
        same_print = refl;
        stays_closed = λ later. was_open (λ s. status_eq s recovering) refl refl i.status hit;
        recoveries = λ h. h;
      })

  returned-injective : {A : Type 0} {a b : A} → ◌≡◌ {A = Result A} (returned a) (returned b) → a ≡ b
  returned-injective e = cc

  occur-Step :
      (now : ℕ) (f : Failure) (l m : IncidentLedger) (id type answer : String)
      → occur now f (l, (id, type)) ≡ returned (m, answer)
      → Step n l m
  unfolding occur
  occur-Step now f l m id type answer e =
      elim (Bool-cases (str_eq (safe_key f.occurrence_key) "")) [
        | inl keyless ↦
            let same = returned-injective (rw keyless at e) in
            rw (← ap (λ x. x.0) same)
              (noted l (event_of id now type (safe_key f.occurrence_key) f.evidence) keyless)
        | inr keyed ↦
            elim (Bool-cases (ltb 0 (count_where (has_key (safe_key f.occurrence_key)) l.events))) [
              | inr new ↦
                  let same = returned-injective (rw (keyed, new) at e) in
                  rw (← ap (λ x. x.0) same) (
                    occurred l (event_of id now type (safe_key f.occurrence_key) f.evidence)
                      (ground arith))
              | inl old ↦
                  elim (Option-cases (first_where (has_key (safe_key f.occurrence_key)) l.events)) [
                    | inl gone ↦ absurd (let lost = rw (keyed, old, gone) at e in cc)
                    | inr (x, found) ↦
                        let same = returned-injective (rw (keyed, old, found) at e) in
                        rw (← ap (λ x. x.0) same) nothing
                  ]
            ]
      ]

  pub Result-cases :
      {A : Type 0} (r : Result A) → ((a : A) × (r ≡ returned a)) ⊎ ((x : Error) × (r ≡ raised x))
  Result-cases (returned a) = inl (a, refl)
  Result-cases (raised x) = inr (x, refl)

  module _ (lower casefold sha256 : String → String) where
    settle-Step :
        (now : ℕ) (uuid : String) (f : Failure) (seen : Option String) (l m : IncidentLedger)
        (who : String × String)
        → settle lower casefold sha256 now uuid f seen l ≡ returned (m, who)
        → Step n l m
    unfolding settle update new_incident
    settle-Step now uuid f (some id) l m who e =
        let same = returned-injective e in
        rw (← ap (λ x. x.0) same) (
          updated l (has_id id) _ (λ i hit. record {
            same_id = refl;
            same_print = refl;
            stays_closed = λ later. later;
            recoveries = λ h. h;
          }))
    settle-Step now uuid f none l m who e =
        let made = new_incident lower casefold sha256 now uuid f in
        elim (Bool-cases (
          ltb 0 (count_where (has_id uuid) l.incidents)
          || ltb 0
              (count_where (is_active (fingerprint_of lower casefold sha256 f)) l.incidents))) [
                | inr new ↦
                    let same = returned-injective (rw new at e) in
                    rw (← ap (λ x. x.0) same) (detected l made (ground arith) (ground arith) refl)
                | inl old ↦
                    elim (Option-cases (
                      first_where (is_active (fingerprint_of lower casefold sha256 f))
                        l.incidents)) [
                          | inl gone ↦ absurd (let lost = rw (old, gone) at e in cc)
                          | inr (x, found) ↦
                              let same = returned-injective (rw (old, found) at e) in
                              rw (← ap (λ x. x.0) same) nothing
                        ]
              ]

    write-Step :
        (now : ℕ) (uuid : String) (f : Failure) (seen : Option String) (l : IncidentLedger)
        → Step n l (write lower casefold sha256 now uuid f seen l).0
    unfolding write
    write-Step now uuid f seen l =
        elim (Result-cases (settle lower casefold sha256 now uuid f seen l)) [
          | inr (x, failed) ↦ rw (failed, write) nothing
          | inl ((m, (id, type)), done) ↦ elim (Result-cases (occur now f (m, (id, type)))) [
            | inr (x, failed) ↦ rw (done, write, failed) nothing
            | inl ((k, answer), noted_as) ↦
                rw (done, write, noted_as)
                  (followed (settle-Step now uuid f seen l m (id, type) done)
                    (occur-Step now f m k id type answer noted_as))
          ]
        ]

    record_failure-Step :
        (now : ℕ) (uuid : String) (f : Failure) (l : IncidentLedger)
        → Step n l (record_failure lower casefold sha256 now uuid f l).0
    unfolding record_failure
    record_failure-Step now uuid f l = elim (Option-cases (occurrence_of f l)) [
      | inl new ↦
          rw (new, record_failure) (write-Step now uuid f (active_of lower casefold sha256 f l) l)
      | inr (id, old) ↦ rw (old, record_failure) nothing
    ]

    apply-Step :
        (op : Op) (l : IncidentLedger)
        → limit_of op ≤ n
        → Step n l (apply lower casefold sha256 op l)
    unfolding apply
    apply-Step (record_op now uuid f) l fits = record_failure-Step now uuid f l
    apply-Step (write_op now uuid f seen) l fits = write-Step now uuid f seen l
    apply-Step (acknowledge_op now id) l fits = acknowledge-Step now id l
    apply-Step (diagnose_op now id run_id evidence) l fits =
        begin_diagnosis-Step now id run_id evidence l
    apply-Step (remediate_op now id status evidence) l fits =
        record_remediation-Step now id status evidence l
    apply-Step (recover_op now id cooldown limit) l fits =
        begin_recovery-Step now id cooldown limit l fits
    apply-Step (finish_op now id is_resolved evidence) l fits =
        finish_recovery-Step now id is_resolved evidence l

    pub run-Step :
        (ops : List Op) (l : IncidentLedger)
        → All (λ op. limit_of op ≤ n) ops
        → Step n l (run lower casefold sha256 l ops)
    unfolding run
    run-Step [] l fits = nothing
    run-Step (op ∷ ops) l fits =
        followed (apply-Step op l fits.0) (run-Step ops (apply lower casefold sha256 op l) fits.1)
