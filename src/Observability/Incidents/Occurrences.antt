-- ===== src/Observability/Incidents/Occurrences.antt =====
-- An occurrence is projected once: `record` in src/hive/observability/incidents.py.
use hive_os.Base.{
  ℕ, String, false, Option, none, some, List, [], ◌∷◌, ◌≡◌, refl, ap, inl, inr, Bool-cases,
  Option-cases, arith, str_eq, str_eq_iff, ltb,
}
use hive_os.Table.{count_where, first_where}
use hive_os.Table.Rows.{first_where-append_old, first_where-append_new}
use hive_os.Observability.Incidents.{
  IncidentEvent, IncidentLedger, Result, returned, has_key, event_of,
}
use hive_os.Observability.Incidents.Record.{
  Failure, safe_key, settle, occur, occurrence_of, active_of, write, record_failure,
}
use hive_os.Observability.Incidents.Histories.{Op, run}
use hive_os.Observability.Incidents.Steps.{
  Step, nothing, followed, updated, noted, occurred, detected, run-Step, Result-cases,
}
use hive_os.Observability.Incidents.Unique.{most, most-All}

-- The event of an occurrence stays.
Step-occurrence :
    {n : ℕ} {l m : IncidentLedger} (key : String) (e : IncidentEvent)
    → Step n l m
    → first_where (has_key key) l.events ≡ some e
    → first_where (has_key key) m.events ≡ some e
Step-occurrence key e nothing found = found
Step-occurrence key e (followed a b) found = Step-occurrence key e b (Step-occurrence key e a found)
Step-occurrence key e (updated l p f step) found = found
Step-occurrence key e (noted l x keyless) found =
    first_where-append_old (has_key key) l.events (x ∷ []) e found
Step-occurrence key e (occurred l x fresh) found =
    first_where-append_old (has_key key) l.events (x ∷ []) e found
Step-occurrence key e (detected l i fresh idle never) found = found

-- The event under a key names the incident `id`.
record Projected (key id : String) (l : IncidentLedger) : Type 0 where
  event : IncidentEvent
  there : first_where (has_key key) l.events ≡ some event
  names : event.incident_id ≡ id

returned-injective : {A : Type 0} {a b : A} → ◌≡◌ {A = Result A} (returned a) (returned b) → a ≡ b
returned-injective e = cc

occur-Projected :
    (now : ℕ) (f : Failure) (l m : IncidentLedger) (who type id : String)
    → str_eq (safe_key f.occurrence_key) "" ≡ false
    → occur now f (l, (who, type)) ≡ returned (m, id)
    → Projected (safe_key f.occurrence_key) id m
unfolding occur
occur-Projected now f l m who type id keyed e =
    elim (Bool-cases (ltb 0 (count_where (has_key (safe_key f.occurrence_key)) l.events))) [
      | inr new ↦
          let same = returned-injective (rw (keyed, new) at e) in
          record {
            event = event_of who now type (safe_key f.occurrence_key) f.evidence;
            there = rw (← ap (λ x. x.0) same) (
                first_where-append_new (has_key (safe_key f.occurrence_key)) l.events _
                  (ground arith)
                  ((str_eq_iff (safe_key f.occurrence_key) (safe_key f.occurrence_key)).1 refl));
            names = ap (λ x. x.1) same;
          }
      | inl old ↦ elim (Option-cases (first_where (has_key (safe_key f.occurrence_key)) l.events)) [
        | inl gone ↦ absurd (let lost = rw (keyed, old, gone) at e in cc)
        | inr (x, found) ↦
            let same = returned-injective (rw (keyed, old, found) at e) in
            record {
              event = x;
              there = rw (← ap (λ x. x.0) same) found;
              names = ap (λ x. x.1) same;
            }
      ]
    ]

occurrence_of-Projected :
    (f : Failure) (l : IncidentLedger) (id : String)
    → occurrence_of f l ≡ some id
    → Projected (safe_key f.occurrence_key) id l
unfolding occurrence_of
occurrence_of-Projected f l id e = elim (Bool-cases (str_eq (safe_key f.occurrence_key) "")) [
  | inl keyless ↦ absurd (let lost : ◌≡◌ {A = Option String} none (some id) = rw keyless at e in cc)
  | inr keyed ↦ elim (Option-cases (first_where (has_key (safe_key f.occurrence_key)) l.events)) [
    | inl gone ↦
        absurd (let lost : ◌≡◌ {A = Option String} none (some id) = rw (keyed, gone) at e in cc)
    | inr (x, found) ↦
        let same : some x.incident_id ≡ some id = rw (keyed, found) at e in
        record { event = x; there = found; names = cc }
  ]
]

-- While the event stays, the SELECT of a call with the same key sees its incident.
Projected-occurrence_of :
    (f : Failure) (l : IncidentLedger) (id : String)
    → str_eq (safe_key f.occurrence_key) "" ≡ false
    → Projected (safe_key f.occurrence_key) id l
    → occurrence_of f l ≡ some id
unfolding occurrence_of
Projected-occurrence_of f l id keyed at_key = rw (keyed, at_key.there) (ap some at_key.names)

module _ (lower casefold sha256 : String → String) where
  record_failure-Projected :
      (now : ℕ) (uuid : String) (f : Failure) (l m : IncidentLedger) (id : String)
      → str_eq (safe_key f.occurrence_key) "" ≡ false
      → record_failure lower casefold sha256 now uuid f l ≡ (m, returned id)
      → Projected (safe_key f.occurrence_key) id m
  unfolding record_failure occurrence_of write
  record_failure-Projected now uuid f l m id keyed e = elim (Option-cases (occurrence_of f l)) [
    | inr (old, seen) ↦
        let e' : ◌≡◌ {A = IncidentLedger × Result String} (l, returned old) (m, returned id) =
          rw (seen, record_failure) at e in
        let ids = returned-injective (ap (λ r. r.1) e') in
        rw (← ap (λ r. r.0) e', ← ids) (occurrence_of-Projected f l old seen)
    | inl new ↦
        let e' : write lower casefold sha256 now uuid f (active_of lower casefold sha256 f l) l
            ≡ (m, returned id) =
          rw (new, record_failure) at e in
        elim (Result-cases 0
          (settle lower casefold sha256 now uuid f (active_of lower casefold sha256 f l) l)) [
            | inr (x, failed) ↦ absurd (let lost = ap (λ r. r.1) (rw (failed, write) at e') in cc)
            | inl ((k, (who, type)), done) ↦ elim (Result-cases 0 (occur now f (k, (who, type)))) [
              | inr (x, failed) ↦
                  absurd (let lost = ap (λ r. r.1) (rw (done, write, failed) at e') in cc)
              | inl ((k', answer), noted_as) ↦
                  let e'' = rw (done, write, noted_as) at e' in
                  let ids = returned-injective (ap (λ r. r.1) e'') in
                  rw (← ap (λ r. r.0) e'', ← ids)
                    (occur-Projected now f k k' who type answer keyed noted_as)
            ]
          ]
  ]

-- Once a call with an occurrence key has given an incident, then after any further calls of any processes a
-- call with that key gives the same incident again and changes nothing.
pub occurrence_projected_once :
    (lower casefold sha256 : String → String) (now later : ℕ) (uuid other : String) (f g : Failure)
    (ops : List Op) (l m : IncidentLedger) (id : String)
    → str_eq (safe_key f.occurrence_key) "" ≡ false
    → safe_key g.occurrence_key ≡ safe_key f.occurrence_key
    → record_failure lower casefold sha256 now uuid f l ≡ (m, returned id)
    → record_failure lower casefold sha256 later other g (run lower casefold sha256 m ops)
      ≡ (run lower casefold sha256 m ops, returned id)
unfolding record_failure
occurrence_projected_once lower casefold sha256 now later uuid other f g ops l m id keyed same e =
    let first = record_failure-Projected lower casefold sha256 now uuid f l m id keyed e in
    let kept =
      Step-occurrence (safe_key f.occurrence_key) first.event
        (run-Step (most ops) lower casefold sha256 ops m (most-All ops)) first.there in
    let at_key : Projected (safe_key g.occurrence_key) id (run lower casefold sha256 m ops) =
      rw same (record { event = first.event; there = kept; names = first.names }) in
    let seen =
      Projected-occurrence_of g (run lower casefold sha256 m ops) id (rw same keyed) at_key in
    rw (seen, record_failure) refl
