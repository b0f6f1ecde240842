-- ===== src/Core/Deployments/Sound.antt =====
-- What every receipt satisfies after any calls.
use hive_os.Base.{
  some-injective, ℕ, ◌<◌, String, true, false, none, some, List, [], ◌≡◌, refl, ap, sym, ◌∙◌, inl,
  inr, Bool-cases, Option-cases, arith, str_eq_iff, ◌&&◌, ◌==◌, All,
}
use hive_os.Table.{count_where, select, first_where, update_where}
use hive_os.Table.Rows.{first_where-update_where, first_where-hit, altered}
use hive_os.Table.Order.{order_by}
use hive_os.Core.Deployments.{
  Status, status_eq, degraded, Signal, DeployRecord, Ledger, value_error, Result, returned, raised,
  has_id, get,
}
use hive_os.Core.Deployments.Checks.{is_key, is_duration, signals}
use hive_os.Core.Deployments.Schedule.{swept}
use hive_os.Core.Deployments.Claims.{
  max_lease, claimable, due_before, head, verify_claim, claim_due, finish,
}
use hive_os.Core.Deployments.Steps.{IsSound, IsValid, Step, Step-IsValid, Step-Later}
use hive_os.Core.Deployments.Steps.Calls.{sweeps-Step, claim_due-Step}
use hive_os.Core.Deployments.Steps.Runs.{run-Step}
use hive_os.Core.Deployments.Histories.{Op, run}

empty-IsValid : IsValid []
unfolding count_where
empty-IsValid = record { unique = λ id. omega arith; sound = tt }

run-IsValid : (lower : String → String) (ops : List Op) → IsValid (run lower [] ops)
run-IsValid lower ops = Step-IsValid (run-Step lower ops []) empty-IsValid

-- Whatever calls any processes make on an empty ledger, every receipt is sound: it is claimed for verification
-- at most twice and for its alert at most three times, it has a lease exactly while it is verified, a
-- time of completion exactly with a verdict, failed signals exactly when degraded, and its alert is
-- not both sent and exhausted.
pub receipts-IsSound : (lower : String → String) (ops : List Op) → All IsSound (run lower [] ops)
receipts-IsSound lower ops = (run-IsValid lower ops).sound

-- Once a receipt is degraded, it is degraded after any further calls.
pub degraded_is_final :
    (lower : String → String) (before after : List Op) (id : String) (d : DeployRecord)
    → get id (run lower [] before) ≡ some d
    → status_eq d.status degraded ≡ true
    → (e : DeployRecord) × ((get id (run lower (run lower [] before) after) ≡ some e)
        × (status_eq e.status degraded ≡ true))
unfolding get
degraded_is_final lower before after id d found was =
    let later =
      Step-Later id d (run-Step lower after (run lower [] before)) (run-IsValid lower before)
        found in
    (
      later.row,
      (later.there, elim later.stays_degraded [ inl never ↦ absurd cc | inr still ↦ still ]),
    )

-- A receipt that a claim returns has one claim more than before, and is in the ledger after.
finish_stale :
    (now : ℕ) (id owner : String) (verdict : Status) (failed : List Signal) (claims : ℕ)
    (l : Ledger) (d : DeployRecord)
    → first_where (has_id id) l ≡ some d
    → claims < d.claim_count
    → finish now id owner verdict failed claims l ≡ (l, raised value_error)
unfolding finish
finish_stale now id owner verdict failed claims l d found old =
    let stale : (d.claim_count == claims) ≡ false = ground arith in
    elim (Option-cases (signals failed)) [
      | inl unknown ↦ rw unknown (ground arith)
      | inr (codes, known) ↦ rw (known, found, stale) (ground arith)
    ]

-- What a claim that returns a receipt has done.
record Claimed (l m : Ledger) (r : DeployRecord) : Type 0 where
  swept_first : Ledger
  sweep : Step l swept_first
  old : DeployRecord
  there_before : first_where (has_id r.id) swept_first ≡ some old
  one_more_claim : old.claim_count < r.claim_count
  there_after : first_where (has_id r.id) m ≡ some r

returned-injective : {A : Type 0} {a b : A} → ◌≡◌ {A = Result A} (returned a) (returned b) → a ≡ b
returned-injective e = cc

claim_due-Claimed :
    (now : ℕ) (host owner : String) (lease : ℕ) (l m : Ledger) (r : DeployRecord)
    → claim_due now host owner lease l ≡ (m, returned (some r))
    → Claimed l m r
unfolding claim_due
claim_due-Claimed now host owner lease l m r e =
    elim (Bool-cases (is_key host && (is_key owner && is_duration max_lease false lease))) [
      | inr invalid ↦ absurd (let lost = ap (λ x. x.1) (rw (invalid, claim_due) at e) in cc)
      | inl valid ↦
          elim (Option-cases
            (head (order_by due_before (select (claimable now host) (swept now host l))))) [
              | inl idle ↦ absurd (
                  let lost =
                    returned-injective (ap (λ x. x.1) (rw (valid, claim_due, idle) at e)) in
                  cc)
              | inr (x, next) ↦
                  let e' = rw (valid, claim_due, next) at e in
                  let after =
                    update_where (has_id x.id) (verify_claim now owner lease) (swept now host l) in
                  let result : first_where (has_id x.id) after ≡ some r =
                    returned-injective (ap (λ y. y.1) e') in
                  let kept =
                    first_where-update_where (has_id x.id) (has_id x.id)
                      (verify_claim now owner lease) (swept now host l) (λ y. refl) in
                  elim (Option-cases (first_where (has_id x.id) (swept now host l))) [
                    | inl gone ↦ absurd (
                        let lost : none ≡ some r =
                          sym (kept ∙ (rw (gone, altered) refl)) ∙ result in
                        cc)
                    | inr (d, found) ↦
                        let hit = first_where-hit (has_id x.id) (swept now host l) d found in
                        let same : verify_claim now owner lease d ≡ r =
                          some-injective (sym (kept ∙ (rw (found, altered, hit) refl)) ∙ result) in
                        let id_of : r.id ≡ x.id =
                          ap (λ y. y.id) (sym same) ∙ (str_eq_iff d.id x.id).0 hit in
                        record {
                          swept_first = swept now host l;
                          sweep = sweeps-Step now host l;
                          old = d;
                          there_before = rw id_of found;
                          one_more_claim = rw (← same) (omega arith);
                          there_after =
                              rw (← ap (λ y. y.0) e')
                                (ap (λ t. first_where (has_id t) after) id_of ∙ result);
                        }
                  ]
            ]
    ]

-- Once a receipt that was claimed is claimed again, by any process, the first claimant can no longer give
-- its verdict: `finish` with the count of the first claim raises a ValueError and changes nothing, whatever
-- other calls come in between and after.
pub stale_claim_refused :
    (lower : String → String) (before between after : List Op) (t u v : ℕ)
    (host other owner rival who : String) (lease span : ℕ) (verdict : Status) (failed : List Signal)
    (m n : Ledger) (r s : DeployRecord)
    → claim_due t host owner lease (run lower [] before) ≡ (m, returned (some r))
    → claim_due u other rival span (run lower m between) ≡ (n, returned (some s))
    → s.id ≡ r.id
    → finish v r.id who verdict failed r.claim_count (run lower n after)
      ≡ (run lower n after, raised value_error)
stale_claim_refused lower before between after t u v host other owner rival who lease span verdict
      failed m n r s first second same =
    let claimed = claim_due-Claimed t host owner lease (run lower [] before) m r first in
    let again = claim_due-Claimed u other rival span (run lower m between) n s second in
    let m_valid : IsValid m = rw (← ap (λ x. x.0) first) (
      Step-IsValid (claim_due-Step t host owner lease (run lower [] before))
        (run-IsValid lower before)) in
    let mid_valid = Step-IsValid (run-Step lower between m) m_valid in
    let n_valid : IsValid n =
      rw (← ap (λ x. x.0) second)
        (Step-IsValid (claim_due-Step u other rival span (run lower m between)) mid_valid) in
    let mid = Step-Later r.id r (run-Step lower between m) m_valid claimed.there_after in
    let pre = Step-Later r.id mid.row again.sweep mid_valid mid.there in
    let row_same : pre.row ≡ again.old =
      some-injective (sym pre.there ∙ (rw (← same) again.there_before)) in
    let more : r.claim_count < s.claim_count = omega (
      arith,
      mid.claims_rise,
      pre.claims_rise,
      ap (λ x. x.claim_count) row_same,
      again.one_more_claim,
    ) in
    let end = Step-Later r.id s (run-Step lower after n) n_valid (rw (← same) again.there_after) in
    finish_stale v r.id who verdict failed r.claim_count (run lower n after) end.row end.there
      (omega (arith, more, end.claims_rise))
