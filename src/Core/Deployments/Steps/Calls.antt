-- ===== src/Core/Deployments/Steps/Calls.antt =====
-- Every call on the deployment ledger is a run of steps.
use hive_os.Base.{
  ℕ, ◌≤◌, String, Bool, true, false, not, Option, some, List, [], ◌∷◌, ◌≡◌, refl, ◌∙◌, ◌⊎◌, inl,
  inr, Bool-cases, Option-cases, arith, str_eq, str_eq_iff, ◌&&◌, ltb, ◌==◌, is_some, if◌then◌else◌,
}
use hive_os.Table.{select, count_where, first_where, update_where}
use hive_os.Table.Order.{order_by}
use hive_os.Table.Rows.{first_where-hit}
use hive_os.Table.Members.{Among, first_where-Among, Among-select, Among-order_by}
use hive_os.Core.Deployments.{
  Status, verifying, healthy, degraded, status_eq, Signal, DeployRecord, Ledger, value_error,
  Result, returned, raised, has_id, unconfirmed, exhausted, alert_lapsed, expire_unconfirmed,
  expire_exhausted, expire_alert_claims,
}
use hive_os.Core.Deployments.Checks.{is_key, is_duration, signals}
use hive_os.Core.Deployments.Schedule.{
  Request, is_valid, new_record, swept, is_rival, schedule, max_settling, confirm_restart, newest,
}
use hive_os.Core.Deployments.Claims.{
  max_lease, claimable, due_before, head, verify_claim, claim_due, is_owner, in_lease, is_verdict,
  matches, finish, mark_restart_failed,
}
use hive_os.Core.Deployments.Steps.{IsSound, RowStep, Step, nothing, followed, updated, scheduled}
use hive_os.Core.Deployments.Steps.Rows.{
  unconfirmed-RowStep, exhausted-RowStep, restart_failed-RowStep, conclude-RowStep,
  verify_claim-RowStep, plain-RowStep,
}

pub unconfirmed-Step :
    (now : ℕ) (host : Option String) (l : Ledger) → Step l (expire_unconfirmed now host l)
unfolding expire_unconfirmed
unconfirmed-Step now host l = Step.swept l (unconfirmed now host) _ (unconfirmed-RowStep now host)

exhausted-Step :
    (now : ℕ) (host : Option String) (l : Ledger) → Step l (expire_exhausted now host l)
unfolding expire_exhausted
exhausted-Step now host l = Step.swept l (exhausted now host) _ (λ r hit. exhausted-RowStep now r)

pub alerts-Step : (now : ℕ) (host : String) (l : Ledger) → Step l (expire_alert_claims now host l)
unfolding expire_alert_claims
alerts-Step now host l = Step.swept l (alert_lapsed now host) _ (λ r hit.
    plain-RowStep r _ refl (refl, (refl, (refl, (refl, (refl, refl))))) (λ h. h.alerts)
      (λ h. inl (ground arith)))

pub sweeps-Step : (now : ℕ) (host : String) (l : Ledger) → Step l (swept now host l)
sweeps-Step now host l =
    followed (unconfirmed-Step now (some host) l) (exhausted-Step now (some host) _)

-- An UPDATE of the row that the SELECT of its key found.
at_key-Step :
    (l : Ledger) (id : String) (r : DeployRecord) (f : DeployRecord → DeployRecord)
    → first_where (has_id id) l ≡ some r
    → ((x : DeployRecord) → (f x).id ≡ x.id)
    → RowStep r (f r)
    → Step l (update_where (has_id id) f l)
at_key-Step l id r f found same step =
    rw (← (str_eq_iff r.id id).0 (first_where-hit (has_id id) l r found))
      (updated l r f (first_where-Among (has_id id) l r found) same step)

pub head-Among : (rs : List DeployRecord) (r : DeployRecord) → head rs ≡ some r → Among r rs
head-Among [] r e = cc
head-Among (x ∷ rs) r e = inl cc

pub newest-Among : (rs : List DeployRecord) (r : DeployRecord) → newest rs ≡ some r → Among r rs
newest-Among [] r e = cc
newest-Among (x ∷ rs) r e = elim (Option-cases (newest rs)) [
  | inl alone ↦ let e' : some x ≡ some r = rw alone at e in inl cc
  | inr (s, found) ↦ elim (Bool-cases (ltb s.created_at x.created_at)) [
    | inl first ↦ let e' : some x ≡ some r = rw (found, first) at e in inl cc
    | inr later ↦
        let e' : some s ≡ some r = rw (found, later) at e in inr (newest-Among rs r (found ∙ e'))
  ]
]

-- A failed check leaves the ledger as it was.
pub guarded {ℓ} :
    {A : Type ℓ} (b : Bool) (l : Ledger) (x : Result A) (r : Ledger × Result A)
    → Step l r.0
    → Step l (if b then (l, x) else r).0
guarded true l x r s = nothing
guarded false l x r s = s

pub schedule-Step :
    (lower : String → String) (now : ℕ) (uuid : String) (q : Request) (l : Ledger)
    → Step l (schedule lower now uuid q l).0
unfolding schedule new_record
schedule-Step lower now uuid q l = guarded (not (is_valid q)) l _ _ (
    guarded (q.exclusive && ltb 0 (count_where (is_rival q) before)) l _ _
      (elim (Bool-cases (ltb 0 (count_where (has_id uuid) before))) [
        | inl taken ↦ rw taken nothing
        | inr free ↦ rw free (
            followed first (
              scheduled before (new_record lower now uuid q) (ground arith)
                (new_record-IsSound now)))
      ]))
  where
    before : Ledger
    before = if q.exclusive then swept now q.host_key l else l

    first : Step l before
    first = elim (Bool-cases q.exclusive) [
      | inl only ↦ rw only (sweeps-Step now q.host_key l)
      | inr free ↦ rw free nothing
    ]

    new_record-IsSound : (now : ℕ) → IsSound (new_record lower now uuid q)
    new_record-IsSound now = record {
      unclaimed = inr refl;
      claims = omega arith;
      leased = refl;
      owned = inl refl;
      stamped = refl;
      explained = refl;
      alerts = omega arith;
      one_outcome = inl refl;
    }

-- An UPDATE of columns outside the verification, on one key.
pub plain-Step :
    (l : Ledger) (id : String) (r : DeployRecord) (f : DeployRecord → DeployRecord)
    → first_where (has_id id) l ≡ some r
    → ((x : DeployRecord) → (f x).id ≡ x.id)
    → (((f r).status ≡ r.status)
        × (((f r).claim_count ≡ r.claim_count)
            × (((f r).lease_until ≡ r.lease_until)
                × (((f r).owner ≡ r.owner)
                    × (((f r).completed_at ≡ r.completed_at)
                        × ((f r).failed_signals ≡ r.failed_signals))))))
    → (IsSound r → (f r).alert_claim_count ≤ 3)
    → (IsSound r
        → (is_some (f r).alert_sent_at ≡ false) ⊎ (is_some (f r).alert_exhausted_at ≡ false))
    → Step l (update_where (has_id id) f l)
plain-Step l id r f found same kept alerts outcome =
    at_key-Step l id r f found same (plain-RowStep r (f r) (same r) kept alerts outcome)

pub confirm_restart-Step :
    (now : ℕ) (id : String) (settling : ℕ) (l : Ledger)
    → Step l (confirm_restart now id settling l).0
unfolding confirm_restart
confirm_restart-Step now id settling l =
    guarded (not (is_duration max_settling true settling)) l _ _
      (elim (Option-cases (first_where (has_id id) l)) [
        | inl gone ↦ rw gone nothing
        | inr (r, found) ↦ rw found (
            guarded _ l _ _ (
              plain-Step l id r _ found (λ x. refl) (refl, (refl, (refl, (refl, (refl, refl)))))
                (λ h. h.alerts) (λ h. h.one_outcome)))
      ])

pub mark_restart_failed-Step :
    (now : ℕ) (id : String) (l : Ledger) → Step l (mark_restart_failed now id l).0
unfolding mark_restart_failed
mark_restart_failed-Step now id l = elim (Option-cases (first_where (has_id id) l)) [
  | inl gone ↦ rw (gone, mark_restart_failed) nothing
  | inr (r, found) ↦
      rw (found, mark_restart_failed)
        (guarded (status_eq r.status degraded) l (returned r) _ (
          guarded (status_eq r.status healthy && str_eq r.baseline_process_id "") l
            (raised value_error) _
            (at_key-Step l id r _ found (λ x. refl) (restart_failed-RowStep now r))))
]

pub finish-Step :
    (now : ℕ) (id owner : String) (verdict : Status) (failed : List Signal) (claims : ℕ)
    (l : Ledger)
    → Step l (finish now id owner verdict failed claims l).0
unfolding finish
finish-Step now id owner verdict failed claims l =
    guarded (not (is_key owner && is_verdict verdict)) l _ _ (elim (Option-cases (signals failed)) [
      | inl unknown ↦ rw unknown nothing
      | inr (codes, known) ↦ rw known (elim (Bool-cases (matches verdict codes)) [
        | inr wrong ↦ rw wrong nothing
        | inl fits ↦ rw fits (elim (Option-cases (first_where (has_id id) l)) [
          | inl gone ↦ rw gone nothing
          | inr (r, found) ↦
              rw found
                (elim (Bool-cases (
                  status_eq r.status verifying
                  && (is_owner owner r.owner
                      && (in_lease now r.lease_until && (r.claim_count == claims))))) [
                        | inr stale ↦ rw stale nothing
                        | inl held ↦ rw held (
                            at_key-Step l id r _ found (λ x. refl)
                              (conclude-RowStep now verdict codes r fits (ground arith)))
                      ])
        ])
      ])
    ])

pub claim_due-Step :
    (now : ℕ) (host owner : String) (lease : ℕ) (l : Ledger)
    → Step l (claim_due now host owner lease l).0
unfolding claim_due
claim_due-Step now host owner lease l =
    guarded (not (is_key host && (is_key owner && is_duration max_lease false lease))) l _ _
      (elim (Option-cases
        (head (order_by due_before (select (claimable now host) (swept now host l))))) [
          | inl idle ↦ rw idle (sweeps-Step now host l)
          | inr (r, first) ↦
              let (here, ready) = Among-select (claimable now host) (swept now host l) r (
                Among-order_by due_before (select (claimable now host) (swept now host l)) r
                  (head-Among _ r first)) in
              rw first (
                followed (sweeps-Step now host l) (
                  updated (swept now host l) r (verify_claim now owner lease) here (λ x. refl)
                    (verify_claim-RowStep now host owner lease r ready)))
        ])
