-- ===== src/Core/Deployments/Steps.antt =====
-- What a call may do to the deployment ledger: the step relation that every call refines.
pub mod Rows
pub mod Calls
pub mod Runs
use hive_os.Base.{
  ℕ, zero, suc, ◌+◌, ◌≤◌, String, Bool, true, false, Option, none, some, List, [], ◌∷◌, ◌++◌, ◌≡◌,
  refl, ap, sym, ◌∙◌, ◌⊎◌, inl, inr, Bool-cases, arith, str_eq, str_eq_iff, All, All-map,
  All-append, if◌then◌else◌, ◌&&◌, ltb, length, is_some,
}
use hive_os.Table.{count_where, first_where, update_where}
use hive_os.Table.Rows.{
  All-update_where, first_where-All, first_where-hit, first_where-update_hit,
  first_where-update_where, first_where-append_old, count_where-update_hit, count_where-append,
  altered,
}
use hive_os.Table.Members.{
  Among, Among-only, All-updated, All-pair, first_where-Among, All-Among, one_more,
}
use hive_os.Core.Deployments.{
  Status, pending, verifying, healthy, degraded, status_eq, DeployRecord, Ledger, has_id, get,
}
use hive_os.Core.Deployments.Claims.{is_verdict}

-- What every receipt satisfies.
pub record IsSound (r : DeployRecord) : Type 0 where
  pub unclaimed : (status_eq r.status pending ≡ false) ⊎ (r.claim_count ≡ 0)
  pub claims : r.claim_count ≤ 2
  pub leased : is_some r.lease_until ≡ status_eq r.status verifying
  pub owned : (status_eq r.status verifying ≡ false) ⊎ (is_some r.owner ≡ true)
  pub stamped : is_some r.completed_at ≡ is_verdict r.status
  pub explained : ltb 0 (length r.failed_signals) ≡ status_eq r.status degraded
  pub alerts : r.alert_claim_count ≤ 3
  pub one_outcome : (is_some r.alert_sent_at ≡ false) ⊎ (is_some r.alert_exhausted_at ≡ false)

-- What a call does to a receipt.
pub record RowStep (r s : DeployRecord) : Type 0 where
  pub same_id : s.id ≡ r.id
  pub claims_rise : r.claim_count ≤ s.claim_count
  pub stays_degraded : (status_eq r.status degraded ≡ false) ⊎ (status_eq s.status degraded ≡ true)
  pub keeps : IsSound r → IsSound s

pub data Step : Ledger → Ledger → Type 0 where
  nothing : {l : Ledger} → Step l l
  followed : {a b c : Ledger} → Step a b → Step b c → Step a c
  swept :
      (l : Ledger) (p : DeployRecord → Bool) (f : DeployRecord → DeployRecord)
      → ((r : DeployRecord) → p r ≡ true → RowStep r (f r))
      → Step l (update_where p f l)
  updated :
      (l : Ledger) (r : DeployRecord) (f : DeployRecord → DeployRecord)
      → Among r l
      → ((x : DeployRecord) → (f x).id ≡ x.id)
      → RowStep r (f r)
      → Step l (update_where (has_id r.id) f l)
  scheduled :
      (l : Ledger) (r : DeployRecord)
      → count_where (has_id r.id) l ≡ 0
      → IsSound r
      → Step l (l ++ r ∷ [])

pub record IsValid (l : Ledger) : Type 0 where
  pub unique : (id : String) → count_where (has_id id) l ≤ 1
  pub sound : All IsSound l

-- Under unique ids an UPDATE of one key changes one row.
only_row :
    (l : Ledger) (r : DeployRecord)
    → Among r l
    → IsValid l
    → All (λ x. has_id r.id x ≡ true → x ≡ r) l
only_row l r here valid = Among-only (λ x. x.id) l r (valid.unique r.id) here

pub Step-IsValid : {l m : Ledger} → Step l m → IsValid l → IsValid m
Step-IsValid nothing h = h
Step-IsValid (followed a b) h = Step-IsValid b (Step-IsValid a h)
Step-IsValid (swept l p f step) h = record {
  unique = λ id.
      rw
        (count_where-update_hit p (has_id id) f l
          (λ r hit. ap (λ t. str_eq t id) (step r hit).same_id))
        (h.unique id);
  sound = All-update_where IsSound p f l (λ r hit ok. (step r hit).keeps ok) h.sound;
}
Step-IsValid (updated l r f here same step) h = record {
  unique = λ id.
      rw
        (count_where-update_hit (has_id r.id) (has_id id) f l
          (λ x hit. ap (λ t. str_eq t id) (same x)))
        (h.unique id);
  sound =
      All-updated (λ x. IsSound x × (has_id r.id x ≡ true → x ≡ r)) IsSound (has_id r.id) f l
        (λ x k. elim (Bool-cases (has_id r.id x)) [
          | inl hit ↦ rw hit (rw (k.1 hit) (step.keeps (rw (k.1 hit) at k.0)))
          | inr miss ↦ rw miss k.0
        ])
        (All-pair IsSound (λ x. has_id r.id x ≡ true → x ≡ r) _ l (λ x a b. (a, b)) h.sound
          (only_row l r here h));
}
Step-IsValid (scheduled l r fresh ok) h = record {
  unique =
      λ id. one_more has_id l r r.id id (λ hit. (str_eq_iff r.id id).0 hit) fresh (h.unique id);
  sound = All-append IsSound l (r ∷ []) h.sound (ok, tt);
}

-- A receipt later on: it is there, with no fewer claims, and degraded where it was.
pub record Later (d : DeployRecord) (o : Option DeployRecord) : Type 0 where
  pub row : DeployRecord
  pub there : o ≡ some row
  pub claims_rise : d.claim_count ≤ row.claim_count
  pub stays_degraded :
      (status_eq d.status degraded ≡ false) ⊎ (status_eq row.status degraded ≡ true)

or_same : (b : Bool) → (b ≡ false) ⊎ (b ≡ true)
or_same true = inr refl
or_same false = inl refl

unmoved : (d : DeployRecord) (o : Option DeployRecord) → o ≡ some d → Later d o
unmoved d o found = record {
  row = d;
  there = found;
  claims_rise = omega arith;
  stays_degraded = or_same (status_eq d.status degraded);
}

stepped : (d e : DeployRecord) (o : Option DeployRecord) → o ≡ some e → RowStep d e → Later d o
stepped d e o found s = record {
  row = e;
  there = found;
  claims_rise = s.claims_rise;
  stays_degraded = s.stays_degraded;
}

pub Step-Later :
    {l m : Ledger} (id : String) (d : DeployRecord)
    → Step l m
    → IsValid l
    → first_where (has_id id) l ≡ some d
    → Later d (first_where (has_id id) m)
Step-Later id d nothing h found = unmoved d _ found
Step-Later id d (followed a b) h found =
    let mid = Step-Later id d a h found in
    let end = Step-Later id mid.row b (Step-IsValid a h) mid.there in
    record {
      row = end.row;
      there = end.there;
      claims_rise = omega (arith, mid.claims_rise, end.claims_rise);
      stays_degraded = elim mid.stays_degraded [
        | inl never ↦ inl never
        | inr so_far ↦ elim end.stays_degraded [ inl lost ↦ absurd cc | inr still ↦ inr still ]
      ];
    }
Step-Later id d (swept l p f step) h found =
    let kept =
      first_where-update_hit p (has_id id) f l
        (λ r hit. ap (λ t. str_eq t id) (step r hit).same_id) in
    elim (Bool-cases (p d)) [
      | inl hit ↦ stepped d (f d) _ (kept ∙ (rw (found, altered, hit) refl)) (step d hit)
      | inr miss ↦ unmoved d _ (kept ∙ (rw (found, altered, miss) refl))
    ]
Step-Later id d (updated l r f here same step) h found =
    let kept =
      first_where-update_hit (has_id r.id) (has_id id) f l
        (λ x hit. ap (λ t. str_eq t id) (same x)) in
    elim (Bool-cases (has_id r.id d)) [
      | inl hit ↦
          let own : d ≡ r =
            All-Among (λ x. has_id r.id x ≡ true → x ≡ r) l d (only_row l r here h)
              (first_where-Among (has_id id) l d found) hit in
          stepped d (f d) _ (kept ∙ (rw (found, altered, hit) refl)) (rw own step)
      | inr miss ↦ unmoved d _ (kept ∙ (rw (found, altered, miss) refl))
    ]
Step-Later id d (scheduled l r fresh ok) h found =
    unmoved d _ (first_where-append_old (has_id id) l (r ∷ []) d found)
