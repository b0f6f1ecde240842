-- ===== src/Observability/Incidents/Unique.antt =====
-- What holds of the rows after any calls: one active incident for a failure, one event for an
-- occurrence, no more recoveries than the calls allow.
use hive_os.Base.{
  ℕ, ◌+◌, ◌≤◌, String, true, false, List, [], ◌∷◌, ◌≡◌, refl, ap, sym, ◌∙◌, ◌⊎◌, inl, inr,
  Bool-cases, arith, str_eq, str_eq_iff, max, All, All-append, All-map,
}
use hive_os.Table.{count_where}
use hive_os.Table.Rows.{
  All-update_where, count_where-append, count_where-update_le, count_where-update_hit,
}
use hive_os.Table.Members.{one_more}
use hive_os.Observability.Incidents.{
  is_open, Incident, IncidentLedger, empty_ledger, has_id, is_active, has_key,
}
use hive_os.Observability.Incidents.Histories.{Op, limit_of, run}
use hive_os.Observability.Incidents.Steps.{
  RowStep, Step, nothing, followed, updated, noted, occurred, detected, run-Step,
}

pub record IsUnique (l : IncidentLedger) : Type 0 where
  pub ids : (id : String) → count_where (has_id id) l.incidents ≤ 1
  pub active : (fingerprint : String) → count_where (is_active fingerprint) l.incidents ≤ 1
  pub occurrences : (key : String) → (key ≡ "") ⊎ (count_where (has_key key) l.events ≤ 1)

Step-IsUnique : {n : ℕ} {l m : IncidentLedger} → Step n l m → IsUnique l → IsUnique m
unfolding count_where
Step-IsUnique nothing h = h
Step-IsUnique (followed a b) h = Step-IsUnique b (Step-IsUnique a h)
Step-IsUnique (updated l p f step) h = record {
  ids = λ id.
      rw
        (count_where-update_hit p (has_id id) f l.incidents
          (λ i hit. ap (λ t. str_eq t id) (step i hit).same_id))
        (h.ids id);
  active = λ fingerprint.
      let le =
        count_where-update_le p (is_active fingerprint) f l.incidents
          (λ i hit now. still_active i (f i) fingerprint (step i hit) now) in
      omega (arith, le, h.active fingerprint);
  occurrences = h.occurrences;
}
  where
    still_active :
        {n : ℕ} (i j : Incident) (fingerprint : String)
        → RowStep n i j
        → is_active fingerprint j ≡ true
        → is_active fingerprint i ≡ true
    still_active i j fingerprint s now =
        let here : str_eq i.fingerprint fingerprint ≡ true = rw (← s.same_print) (ground arith) in
        let going : is_open i.status ≡ true = s.stays_closed (ground arith) in rw (here, going) refl
Step-IsUnique (noted l e keyless) h = record {
  ids = h.ids;
  active = h.active;
  occurrences = λ key. elim (Bool-cases (str_eq key "")) [
    | inl blank ↦ inl ((str_eq_iff key "").0 blank)
    | inr named ↦ elim (h.occurrences key) [
      | inl blank ↦ inl blank
      | inr once ↦
          inr (rw (count_where-append (has_key key) l.events (e ∷ [])) (other key named once))
    ]
  ];
}
  where
    other :
        (key : String)
        → str_eq key "" ≡ false
        → count_where (has_key key) l.events ≤ 1
        → count_where (has_key key) l.events + count_where (has_key key) (e ∷ []) ≤ 1
    other key named once = elim (Bool-cases (has_key key e)) [
      | inl hit ↦
          let same : key ≡ "" =
            sym ((str_eq_iff e.occurrence_key key).0 hit)
            ∙ (str_eq_iff e.occurrence_key "").0 keyless in
          let blank = (str_eq_iff key "").1 same in absurd cc
      | inr miss ↦ ground arith
    ]
Step-IsUnique (occurred l e fresh) h = record {
  ids = h.ids;
  active = h.active;
  occurrences = λ key. elim (h.occurrences key) [
    | inl blank ↦ inl blank
    | inr once ↦ inr (
        one_more has_key l.events e e.occurrence_key key
          (λ hit. (str_eq_iff e.occurrence_key key).0 hit) fresh once)
  ];
}
Step-IsUnique (detected l i fresh idle never) h = record {
  ids = λ id.
      one_more has_id l.incidents i i.incident_id id (λ hit. (str_eq_iff i.incident_id id).0 hit)
        fresh (h.ids id);
  active = λ fingerprint.
      one_more is_active l.incidents i i.fingerprint fingerprint
        (λ hit. (str_eq_iff i.fingerprint fingerprint).0 (ground arith)) idle
        (h.active fingerprint);
  occurrences = h.occurrences;
}

-- The largest number of recoveries that a call allows.
pub most : List Op → ℕ
most [] = 0
most (op ∷ ops) = max (limit_of op) (most ops)

pub most-All : (ops : List Op) → All (λ op. limit_of op ≤ most ops) ops
unfolding most
most-All [] = tt
most-All (op ∷ ops) = (omega arith, All-map _ _ ops (λ x le. omega (arith, le)) (most-All ops))

-- Whatever calls several processes make on an empty ledger, the writes of calls whose SELECTs saw an older
-- ledger included: an id names one incident, a failure has at most one active incident, and an
-- occurrence has at most one event.
pub incidents-IsUnique :
    (lower casefold sha256 : String → String) (ops : List Op)
    → IsUnique (run lower casefold sha256 empty_ledger ops)
unfolding empty_ledger count_where
incidents-IsUnique lower casefold sha256 ops =
    Step-IsUnique (run-Step (most ops) lower casefold sha256 ops empty_ledger (most-All ops))
      (record {
        ids = λ id. omega arith;
        active = λ print. omega arith;
        occurrences = λ key. inr (omega arith);
      })

abbrev pub RecoveredAtMost : ℕ → Incident → Type 0
RecoveredAtMost n i = i.recovery_count ≤ n

Step-RecoveredAtMost :
    {n : ℕ} {l m : IncidentLedger}
    → Step n l m
    → All (RecoveredAtMost n) l.incidents
    → All (RecoveredAtMost n) m.incidents
Step-RecoveredAtMost nothing h = h
Step-RecoveredAtMost (followed a b) h = Step-RecoveredAtMost b (Step-RecoveredAtMost a h)
Step-RecoveredAtMost (updated l p f step) h =
    All-update_where _ p f l.incidents (λ i hit ok. (step i hit).recoveries ok) h
Step-RecoveredAtMost (noted l e keyless) h = h
Step-RecoveredAtMost (occurred l e fresh) h = h
Step-RecoveredAtMost (detected l i fresh idle never) h =
    All-append _ l.incidents (i ∷ []) h (omega (arith, never), tt)

-- Where no call to begin a recovery allows more than `n` of them, no incident is recovered more than `n`
-- times, whatever calls several processes make on an empty ledger.
pub recoveries_bounded :
    (lower casefold sha256 : String → String) (n : ℕ) (ops : List Op)
    → All (λ op. limit_of op ≤ n) ops
    → All (RecoveredAtMost n) (run lower casefold sha256 empty_ledger ops).incidents
unfolding empty_ledger
recoveries_bounded lower casefold sha256 n ops fits =
    Step-RecoveredAtMost (run-Step n lower casefold sha256 ops empty_ledger fits) tt
