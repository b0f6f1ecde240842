-- ===== src/Observability/Incidents/Recovery.antt =====
-- The transitions of an incident: src/hive/observability/incidents.py.
use hive_os.Base.{
  ℕ, ◌+◌, String, Bool, true, false, Option, none, some, List, ◌&&◌, ◌||◌, ltb, leb, ◌==◌,
  if◌then◌else◌, str_eq, not, max,
}
use hive_os.Table.{count_where}
use hive_os.Observability.Incidents.{
  Status, opened, diagnosing, recovering, awaiting_review, resolved, suppressed, status_eq, is_open,
  Incident, IncidentEvent, IncidentLedger, value_error, Result, returned, raised, has_id, note,
  update, get,
}

-- An UPDATE of one incident, with its event where the rowcount is 1.
unfoldable pub moved :
    ℕ
    → String
    → (Incident → Bool)
    → (Incident → Incident)
    → String
    → String
    → IncidentLedger
    → IncidentLedger × Bool
unfolding note update
moved now id g f type evidence l =
    let updated = update (λ i. has_id id i && g i) f l in
    if not (count_where (λ i. has_id id i && g i) l.incidents == 1)
    then (updated, false)
    else (note now id type evidence updated, true)

-- The `if cursor.rowcount != 1: return None`, and the row that `get` reads.
abbrev pub with_row :
    String → IncidentLedger × Bool → IncidentLedger × Option (Incident × List IncidentEvent)
with_row id (l, done) = (l, if done then get id l else none)

abbrev pub ends : Status → Bool
ends s = status_eq s resolved || status_eq s suppressed

abbrev pub to_status : ℕ → Status → Incident → Incident
to_status now s i = record i {
  status = s;
  updated_ts = now;
  resolved_ts = if ends s then some now else none;
}

unfoldable pub transition :
    ℕ → String → (Status → Bool) → Status → String → IncidentLedger → IncidentLedger × Bool
unfolding moved
transition now id origins s type l =
    moved now id (λ i. origins i.status) (to_status now s) type "{}" l

unfoldable pub acknowledge : ℕ → String → IncidentLedger → IncidentLedger × Bool
unfolding transition
acknowledge now id l = transition now id is_open suppressed "acknowledged" l

-- `evidence` is json.dumps({"run_id": run_id}).
unfoldable pub begin_diagnosis :
    ℕ
    → String
    → String
    → String
    → IncidentLedger
    → IncidentLedger × Option (Incident × List IncidentEvent)
unfolding moved
begin_diagnosis now id run_id evidence l = with_row id (
    moved now id (λ i. status_eq i.status opened)
      (λ i. record i {
        status = diagnosing;
        run_id = if str_eq i.run_id "" then run_id else i.run_id;
        updated_ts = now;
      })
      "diagnosis_started" evidence l)

unfoldable pub record_remediation :
    ℕ → String → Status → String → IncidentLedger → IncidentLedger × Result Bool
unfolding moved
record_remediation now id status evidence l =
    if not
      (status_eq status opened || (status_eq status awaiting_review || status_eq status resolved))
    then (l, raised value_error)
    else (let m =
          moved now id (λ i. status_eq i.status diagnosing)
            (λ i. record i {
              status = status;
              updated_ts = now;
              resolved_ts = if status_eq status resolved then some now else none;
            })
            "remediation_recorded" evidence l in
        (m.0, returned m.1))

abbrev pub may_recover : ℕ → ℕ → Incident → Bool
may_recover now limit i =
    (status_eq i.status opened || status_eq i.status diagnosing)
    && (ltb i.recovery_count limit && leb i.next_recovery_ts now)

unfoldable pub begin_recovery :
    ℕ → String → ℕ → ℕ → IncidentLedger → IncidentLedger × Option (Incident × List IncidentEvent)
unfolding moved
begin_recovery now id cooldown max_recoveries l = with_row id (
    moved now id (may_recover now (max 1 max_recoveries))
      (λ i. record i {
        status = recovering;
        recovery_count = i.recovery_count + 1;
        next_recovery_ts = now + cooldown;
        updated_ts = now;
      })
      "recovery_started" "{}" l)

unfoldable pub finish_recovery : ℕ → String → Bool → String → IncidentLedger → IncidentLedger × Bool
unfolding moved
finish_recovery now id is_resolved evidence l =
    moved now id (λ i. status_eq i.status recovering)
      (λ i. record i {
        status = if is_resolved then resolved else opened;
        updated_ts = now;
        resolved_ts = if is_resolved then some now else none;
      })
      (if is_resolved then "recovery_resolved" else "recovery_failed") evidence l
