-- ===== src/Observability/Incidents/Record.antt =====
-- `record`: src/hive/observability/incidents.py. The SELECTs come before the transaction that writes, so
-- the write takes what they saw as an argument: another process may have written since.
use Prim.Native.Nat.{zero, suc}
use Prim.Native.String
use hive_os.Base.{
  ℕ, String, Option, none, some, [], ◌∷◌, ◌++◌, ◌&&◌, ◌||◌, not, ltb, if◌then◌else◌, str_eq, strip,
}
use hive_os.Table.{count_where, first_where}
use hive_os.Observability.Incidents.{
  opened, Incident, IncidentLedger, integrity_error, runtime_error, Result, returned, raised,
  has_id, is_active, has_key, event_of, update,
}

-- `s[:n]`
unfoldable pub truncate : ℕ → String → String
truncate zero s = String.[]
truncate (suc n) String.[] = String.[]
truncate (suc n) (String.◌∷◌ c s) = String.◌∷◌ c (truncate n s)

-- s.replace("\n", " ")
unfoldable pub one_line : String → String
one_line String.[] = String.[]
one_line (String.◌∷◌ c s) =
    let rest = one_line s in
    if str_eq (String.◌∷◌ c String.[]) "\n" then String.◌++◌ " " rest else String.◌∷◌ c rest

-- `s or default`
unfoldable pub or_else : String → String → String
or_else s d = if str_eq s "" then d else s

-- `value` is the text of the redacted summary.
unfoldable pub safe_summary : String → String
unfolding truncate one_line or_else strip
safe_summary value = or_else (truncate 500 (strip (one_line value))) "unspecified failure"

unfoldable pub safe_key : String → String
unfolding truncate strip
safe_key key = truncate 256 (strip key)

-- The arguments of a call.
pub record Failure : Type 0 where
  pub source : String
  pub summary : String
  pub severity : String
  pub run_id : String
  pub task_id : Option ℕ
  pub evidence : String
  pub occurrence_key : String

-- INSERT OR IGNORE of the event; where the key is there, its incident is the answer.
unfoldable pub occur :
    ℕ → Failure → IncidentLedger × (String × String) → Result (IncidentLedger × String)
unfolding safe_key
occur now f (l, (id, type)) =
    let key = safe_key f.occurrence_key in
    if not (str_eq key "") && ltb 0 (count_where (has_key key) l.events)
    then elim (first_where (has_key key) l.events) [
      | none ↦ raised runtime_error
      | some e ↦ returned (l, e.incident_id)
    ]
    else returned (record l { events = l.events ++ event_of id now type key f.evidence ∷ [] }, id)

-- What the SELECT of the occurrence sees.
unfoldable pub occurrence_of : Failure → IncidentLedger → Option String
unfolding safe_key
occurrence_of f l =
    if str_eq (safe_key f.occurrence_key) ""
    then none
    else elim (first_where (has_key (safe_key f.occurrence_key)) l.events) [
      | none ↦ none
      | some e ↦ some e.incident_id
    ]

module _ (lower casefold sha256 : String → String) where
  unfoldable pub normalized_source : Failure → String
  unfolding truncate or_else strip
  normalized_source f = or_else (truncate 80 (lower (strip f.source))) "unknown"

  unfoldable pub normalized_severity : Failure → String
  normalized_severity f =
      let severity = lower f.severity in
      if str_eq severity "warning" || (str_eq severity "error" || str_eq severity "critical")
      then severity
      else "error"

  unfoldable pub fingerprint_of : Failure → String
  unfolding normalized_source safe_summary
  fingerprint_of f =
      sha256
        (String.◌++◌ (normalized_source f) (String.◌++◌ "\0" (casefold (safe_summary f.summary))))

  unfoldable pub new_incident : ℕ → String → Failure → Incident
  unfolding normalized_source normalized_severity safe_summary fingerprint_of
  new_incident now id f = record {
    incident_id = id;
    fingerprint = fingerprint_of f;
    source = normalized_source f;
    severity = normalized_severity f;
    status = opened;
    summary = safe_summary f.summary;
    run_id = f.run_id;
    task_id = f.task_id;
    recovery_count = 0;
    next_recovery_ts = 0;
    created_ts = now;
    updated_ts = now;
    resolved_ts = none;
  }

  -- UPDATE … SET updated_ts=?, run_id=CASE …, task_id=COALESCE(task_id, ?)
  abbrev pub repeat_of : ℕ → Failure → Incident → Incident
  repeat_of now f i = record i {
    updated_ts = now;
    run_id = if str_eq i.run_id "" then f.run_id else i.run_id;
    task_id = elim i.task_id [ none ↦ f.task_id | some t ↦ some t ];
  }

  -- The incident the event belongs to: the one that the SELECT saw, a new one, or the one of the process
  -- that won the race for the unique index.
  unfoldable pub settle :
      ℕ
      → String
      → Failure
      → Option String
      → IncidentLedger
      → Result (IncidentLedger × (String × String))
  unfolding new_incident fingerprint_of update
  settle now uuid f (some id) l =
      returned (update (has_id id) (repeat_of now f) l, (id, "repeated"))
  settle now uuid f none l =
      if ltb 0 (count_where (has_id uuid) l.incidents)
        || ltb 0 (count_where (is_active (fingerprint_of f)) l.incidents)
      then elim (first_where (is_active (fingerprint_of f)) l.incidents) [
        | none ↦ raised integrity_error
        | some i ↦ returned (l, (i.incident_id, "repeated"))
      ]
      else returned
          (record l { incidents = l.incidents ++ new_incident now uuid f ∷ [] }, (uuid, "detected"))

  -- What the SELECT of the active incident sees.
  unfoldable pub active_of : Failure → IncidentLedger → Option String
  unfolding fingerprint_of
  active_of f l = elim (first_where (is_active (fingerprint_of f)) l.incidents) [
    | none ↦ none
    | some i ↦ some i.incident_id
  ]

  -- The writes of a call, which an exception takes back.
  unfoldable pub write :
      ℕ → String → Failure → Option String → IncidentLedger → IncidentLedger × Result String
  unfolding settle occur
  write now uuid f seen l = elim (settle now uuid f seen l) [
    | raised e ↦ (l, raised e)
    | returned done ↦ elim (occur now f done) [
      | raised e ↦ (l, raised e)
      | returned (m, id) ↦ (m, returned id)
    ]
  ]

  -- A call that no other process interrupts; the id under which `get` reads the answer.
  unfoldable pub record_failure :
      ℕ → String → Failure → IncidentLedger → IncidentLedger × Result String
  unfolding occurrence_of active_of write
  record_failure now uuid f l = elim (occurrence_of f l) [
    | some id ↦ (l, returned id)
    | none ↦ write now uuid f (active_of f l) l
  ]
