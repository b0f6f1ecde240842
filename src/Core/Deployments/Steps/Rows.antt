-- ===== src/Core/Deployments/Steps/Rows.antt =====
-- The UPDATEs of the deployment ledger, row by row.
use hive_os.Base.{
  ℕ, ◌≤◌, String, Bool, true, false, Option, none, some, List, [], ◌∷◌, ◌≡◌, refl, ap, sym, ◌∙◌,
  ◌⊎◌, inl, inr, Bool-cases, arith, ◌&&◌, ◌||◌, ltb, length, is_some,
}
use hive_os.Core.Deployments.{
  Status, pending, verifying, healthy, degraded, status_eq, Signal, restart, timeout, DeployRecord,
  passed, unconfirmed,
}
use hive_os.Core.Deployments.Claims.{is_verdict, claimable, verify_claim, matches, conclude}
use hive_os.Core.Deployments.Steps.{IsSound, RowStep}

pub is_status : (s t : Status) → status_eq s t ≡ true → s ≡ t
is_status pending pending e = refl
is_status verifying verifying e = refl
is_status healthy healthy e = refl
is_status degraded degraded e = refl
is_status pending verifying e = cc
is_status pending healthy e = cc
is_status pending degraded e = cc
is_status verifying pending e = cc
is_status verifying healthy e = cc
is_status verifying degraded e = cc
is_status healthy pending e = cc
is_status healthy verifying e = cc
is_status healthy degraded e = cc
is_status degraded pending e = cc
is_status degraded verifying e = cc
is_status degraded healthy e = cc

-- A receipt that gets its verdict: nobody holds it any longer.
judged :
    (r s : DeployRecord)
    → s.id ≡ r.id
    → s.claim_count ≡ r.claim_count
    → is_verdict s.status ≡ true
    → (is_some s.lease_until ≡ false) × (is_some s.completed_at ≡ true)
    → ltb 0 (length s.failed_signals) ≡ status_eq s.status degraded
    → (status_eq r.status degraded ≡ false) ⊎ (status_eq s.status degraded ≡ true)
    → (s.alert_claim_count ≡ r.alert_claim_count)
      × ((s.alert_sent_at ≡ r.alert_sent_at) × (s.alert_exhausted_at ≡ r.alert_exhausted_at))
    → RowStep r s
judged r s same claims verdict stamps explained final (alerts, (sent, gone)) = record {
  same_id = same;
  claims_rise = omega (arith, claims);
  stays_degraded = final;
  keeps = λ h. record {
    unclaimed = inl (not_pending s.status verdict);
    claims = rw claims h.claims;
    leased = stamps.0 ∙ sym (not_verifying s.status verdict);
    owned = inl (not_verifying s.status verdict);
    stamped = stamps.1 ∙ sym verdict;
    explained = explained;
    alerts = rw alerts h.alerts;
    one_outcome = rw (sent, gone) h.one_outcome;
  };
}
  where
    not_pending : (s : Status) → is_verdict s ≡ true → status_eq s pending ≡ false
    not_pending pending e = cc
    not_pending verifying e = refl
    not_pending healthy e = refl
    not_pending degraded e = refl

    not_verifying : (s : Status) → is_verdict s ≡ true → status_eq s verifying ≡ false
    not_verifying pending e = refl
    not_verifying verifying e = cc
    not_verifying healthy e = refl
    not_verifying degraded e = refl

pub unconfirmed-RowStep :
    (now : ℕ) (host : Option String) (r : DeployRecord)
    → unconfirmed now host r ≡ true
    → RowStep r (record r {
      status = degraded;
      failed_signals = restart ∷ [];
      completed_at = some now;
      updated_at = now;
    })
unconfirmed-RowStep now host r hit =
    let was : r.status ≡ pending = is_status r.status pending (ground arith) in
    record {
      same_id = refl;
      claims_rise = omega arith;
      stays_degraded = inr refl;
      keeps = λ h. record {
        unclaimed = inl refl;
        claims = h.claims;
        leased = h.leased ∙ ap (λ s. status_eq s verifying) was;
        owned = inl refl;
        stamped = refl;
        explained = refl;
        alerts = h.alerts;
        one_outcome = h.one_outcome;
      };
    }

pub exhausted-RowStep :
    (now : ℕ) (r : DeployRecord)
    → RowStep r (record r {
      status = degraded;
      owner = none;
      lease_until = none;
      failed_signals = timeout ∷ [];
      completed_at = some now;
      updated_at = now;
    })
exhausted-RowStep now r =
    judged r _ refl refl refl (refl, refl) refl (inr refl) (refl, (refl, refl))

pub restart_failed-RowStep :
    (now : ℕ) (r : DeployRecord)
    → RowStep r (record r {
      status = degraded;
      failed_signals = restart ∷ [];
      owner = none;
      lease_until = none;
      completed_at = some now;
      updated_at = now;
    })
restart_failed-RowStep now r =
    judged r _ refl refl refl (refl, refl) refl (inr refl) (refl, (refl, refl))

pub conclude-RowStep :
    (now : ℕ) (verdict : Status) (failed : List Signal) (r : DeployRecord)
    → matches verdict failed ≡ true
    → status_eq r.status verifying ≡ true
    → RowStep r (conclude now verdict failed r)
conclude-RowStep now healthy [] r fits going =
    judged r _ refl refl refl (refl, refl) refl (inl (rw (is_status r.status verifying going) refl))
      (refl, (refl, refl))
conclude-RowStep now degraded (s ∷ ss) r fits going =
    judged r _ refl refl refl (refl, refl) (ground arith) (inr refl) (refl, (refl, refl))
conclude-RowStep now pending failed r fits going = absurd cc
conclude-RowStep now verifying failed r fits going = absurd cc
conclude-RowStep now healthy (s ∷ ss) r fits going = absurd cc
conclude-RowStep now degraded [] r fits going = absurd cc

-- What the clause on the status of `claim_due` admits.
waiting :
    (s : Status) (b : Bool)
    → status_eq s pending || (status_eq s verifying && b) ≡ true
    → (status_eq s degraded ≡ false) × (is_verdict s ≡ false)
waiting pending b e = (refl, refl)
waiting verifying b e = (refl, refl)
waiting healthy b e = absurd cc
waiting degraded b e = absurd cc

pub verify_claim-RowStep :
    (now : ℕ) (host owner : String) (lease : ℕ) (r : DeployRecord)
    → claimable now host r ≡ true
    → RowStep r (verify_claim now owner lease r)
verify_claim-RowStep now host owner lease r hit =
    let (calm, undecided) =
      waiting r.status (passed now r.lease_until && ltb r.claim_count 2) (ground arith) in
    record {
      same_id = refl;
      claims_rise = omega arith;
      stays_degraded = inl calm;
      keeps = λ h. record {
        unclaimed = inl refl;
        claims = elim (Bool-cases (status_eq r.status pending)) [
          | inl fresh ↦ elim h.unclaimed [
            | inl claimed ↦ absurd cc
            | inr none_yet ↦ omega (arith, none_yet)
          ]
          | inr again ↦ ground arith
        ];
        leased = refl;
        owned = inr refl;
        stamped = h.stamped ∙ undecided;
        explained = h.explained ∙ calm;
        alerts = h.alerts;
        one_outcome = h.one_outcome;
      };
    }

same_status : (s : Status) → (status_eq s degraded ≡ false) ⊎ (status_eq s degraded ≡ true)
same_status pending = inl refl
same_status verifying = inl refl
same_status healthy = inl refl
same_status degraded = inr refl

-- An UPDATE of columns outside the verification.
pub plain-RowStep :
    (r s : DeployRecord)
    → s.id ≡ r.id
    → (s.status ≡ r.status)
      × ((s.claim_count ≡ r.claim_count)
          × ((s.lease_until ≡ r.lease_until)
              × ((s.owner ≡ r.owner)
                  × ((s.completed_at ≡ r.completed_at) × (s.failed_signals ≡ r.failed_signals)))))
    → (IsSound r → s.alert_claim_count ≤ 3)
    → (IsSound r → (is_some s.alert_sent_at ≡ false) ⊎ (is_some s.alert_exhausted_at ≡ false))
    → RowStep r s
plain-RowStep r s same (status, (claims, (lease, (owner, (completed, signals))))) alerts outcome =
    record {
      same_id = same;
      claims_rise = omega (arith, claims);
      stays_degraded = rw status (same_status r.status);
      keeps = λ h. record {
        unclaimed = rw (status, claims) h.unclaimed;
        claims = rw claims h.claims;
        leased = rw (lease, status) h.leased;
        owned = rw (status, owner) h.owned;
        stamped = rw (completed, status) h.stamped;
        explained = rw (signals, status) h.explained;
        alerts = alerts h;
        one_outcome = outcome h;
      };
    }
