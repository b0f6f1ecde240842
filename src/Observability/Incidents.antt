-- ===== src/Observability/Incidents.antt =====
-- The incident ledger: src/hive/observability/incidents.py. Times are milliseconds, the uuid of a new
-- incident and the JSON text of its redacted evidence are arguments.
pub mod Record
pub mod Recovery
pub mod Views
pub mod Histories
pub mod Steps
pub mod Unique
pub mod Occurrences
use hive_os.Base.{
  ℕ, ◌+◌, ◌-◌, String, Bool, true, false, Option, none, some, List, [], ◌∷◌, ◌++◌, ◌&&◌, ◌||◌, not,
  ltb, leb, ◌==◌, if◌then◌else◌, str_eq, length, drop,
}
use hive_os.Table.{select, count_where, first_where, update_where}

pub data Status : Type 0 where
  opened diagnosing recovering awaiting_review resolved suppressed : Status

abbrev pub status_eq : Status → Status → Bool
status_eq opened opened = true
status_eq diagnosing diagnosing = true
status_eq recovering recovering = true
status_eq awaiting_review awaiting_review = true
status_eq resolved resolved = true
status_eq suppressed suppressed = true
status_eq _ _ = false

-- OPEN_STATUSES
abbrev pub is_open : Status → Bool
is_open resolved = false
is_open suppressed = false
is_open _ = true

-- A row of hive_incidents.
pub record Incident : Type 0 where
  pub incident_id : String
  pub fingerprint : String
  pub source : String
  pub severity : String
  pub status : Status
  pub summary : String
  pub run_id : String
  pub task_id : Option ℕ
  pub recovery_count : ℕ
  pub next_recovery_ts : ℕ
  pub created_ts : ℕ
  pub updated_ts : ℕ
  pub resolved_ts : Option ℕ

-- A row of hive_incident_events.
pub record IncidentEvent : Type 0 where
  pub incident_id : String
  pub ts : ℕ
  pub event_type : String
  pub occurrence_key : String
  pub evidence_json : String

pub record IncidentLedger : Type 0 where
  pub incidents : List Incident
  pub events : List IncidentEvent

pub data Error : Type 0 where
  value_error integrity_error runtime_error : Error

pub data Result {ℓ} (A : Type ℓ) : Type ℓ where
  returned : A → Result A
  raised : Error → Result A

unfoldable pub empty_ledger : IncidentLedger
empty_ledger = record { incidents = []; events = [] }

abbrev pub has_id : String → Incident → Bool
has_id id i = str_eq i.incident_id id

-- The rows of the partial unique index.
abbrev pub is_active : String → Incident → Bool
is_active fingerprint i = str_eq i.fingerprint fingerprint && is_open i.status

abbrev pub has_key : String → IncidentEvent → Bool
has_key key e = str_eq e.occurrence_key key

abbrev pub event_of : String → ℕ → String → String → String → IncidentEvent
event_of id now type key evidence = record {
  incident_id = id;
  ts = now;
  event_type = type;
  occurrence_key = key;
  evidence_json = evidence;
}

-- INSERT INTO hive_incident_events, with the default key and evidence.
unfoldable pub note : ℕ → String → String → String → IncidentLedger → IncidentLedger
note now id type evidence l = record l {
  events = l.events ++ event_of id now type "" evidence ∷ [];
}

-- UPDATE hive_incidents SET f WHERE p, and its rowcount.
unfoldable pub update : (Incident → Bool) → (Incident → Incident) → IncidentLedger → IncidentLedger
update p f l = record l { incidents = update_where p f l.incidents }

-- The events that `get` shows: the last 200, the oldest of them first.
unfoldable pub shown_events : String → IncidentLedger → List IncidentEvent
shown_events id l =
    let own = select (λ e. str_eq e.incident_id id) l.events in drop (length own - 200) own

unfoldable pub get : String → IncidentLedger → Option (Incident × List IncidentEvent)
unfolding shown_events
get id l = elim (first_where (has_id id) l.incidents) [
  | none ↦ none
  | some i ↦ some (i, shown_events id l)
]
