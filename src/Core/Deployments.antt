-- ===== src/Core/Deployments.antt =====
-- The deployment ledger: src/hive/core/deployment_ledger.py. Times and durations are milliseconds; `lower`
-- is `str.lower`; the uuid of a new receipt is an argument. Each call is one transaction.
pub mod Checks
pub mod Schedule
pub mod Claims
pub mod Alerts
pub mod Reads
pub mod Histories
pub mod Steps
pub mod Sound
pub mod Paging
use hive_os.Base.{
  ℕ, String, Bool, true, false, Option, none, some, List, [], ◌∷◌, ◌++◌, ◌&&◌, ◌||◌, not, leb, ltb,
  ◌==◌, if◌then◌else◌, str_eq, is_some,
}
use hive_os.Table.{update_where, first_where}

pub data Status : Type 0 where
  pending verifying healthy degraded : Status

abbrev pub status_eq : Status → Status → Bool
status_eq pending pending = true
status_eq verifying verifying = true
status_eq healthy healthy = true
status_eq degraded degraded = true
status_eq _ _ = false

-- TARGETS, MODES and SIGNALS
pub data Target : Type 0 where
  gateway orchestrator keeper : Target

abbrev pub target_eq : Target → Target → Bool
target_eq gateway gateway = true
target_eq orchestrator orchestrator = true
target_eq keeper keeper = true
target_eq _ _ = false

pub data Mode : Type 0 where
  systemctl docker ssh : Mode

abbrev pub mode_eq : Mode → Mode → Bool
mode_eq systemctl systemctl = true
mode_eq docker docker = true
mode_eq ssh ssh = true
mode_eq _ _ = false

pub data Signal : Type 0 where
  doctor gateway_signal smoke revision restart verifier timeout : Signal

-- A row of deploy_ledger.
pub record DeployRecord : Type 0 where
  pub id : String
  pub run_id : String
  pub target : Target
  pub mode : Mode
  pub host_key : String
  pub expected_sha : String
  pub baseline_sha : String
  pub status : Status
  pub due_at : ℕ
  pub created_at : ℕ
  pub updated_at : ℕ
  pub claim_count : ℕ
  pub owner : Option String
  pub lease_until : Option ℕ
  pub failed_signals : List Signal
  pub completed_at : Option ℕ
  pub alert_owner : Option String
  pub alert_lease_until : Option ℕ
  pub alert_claim_count : ℕ
  pub alert_sent_at : Option ℕ
  pub alert_exhausted_at : Option ℕ
  pub alert_failure_recorded_at : Option ℕ
  pub incident_recorded_at : Option ℕ
  pub restart_confirmed_at : Option ℕ
  pub baseline_process_id : String
  pub started_process_id : String
  pub systemctl_scope : String

abbrev pub Ledger : Type 0
Ledger = List DeployRecord

pub data Error : Type 0 where
  value_error lookup_error integrity_error : Error

pub data Result {ℓ} (A : Type ℓ) : Type ℓ where
  returned : A → Result A
  raised : Error → Result A

abbrev pub has_id : String → DeployRecord → Bool
has_id id r = str_eq r.id id

unfoldable pub get : String → Ledger → Option DeployRecord
get id l = first_where (has_id id) l

-- `t <= now` in SQL, which does not hold of NULL.
abbrev pub passed : ℕ → Option ℕ → Bool
passed now none = false
passed now (some t) = leb t now

abbrev pub max_verification_claims : ℕ
max_verification_claims = 2

abbrev pub max_alert_claims : ℕ
max_alert_claims = 3

abbrev pub is_gateway : DeployRecord → Bool
is_gateway r = target_eq r.target gateway && mode_eq r.mode systemctl

-- The clause on the host, which some calls leave out.
abbrev pub on_host : Option String → DeployRecord → Bool
on_host none r = true
on_host (some host) r = str_eq r.host_key host

abbrev pub unconfirmed : ℕ → Option String → DeployRecord → Bool
unconfirmed now host r =
    status_eq r.status pending
    && (not (is_some r.restart_confirmed_at) && (leb r.due_at now && on_host host r))

unfoldable pub expire_unconfirmed : ℕ → Option String → Ledger → Ledger
expire_unconfirmed now host l =
    update_where (unconfirmed now host)
      (λ r. record r {
        status = degraded;
        failed_signals = restart ∷ [];
        completed_at = some now;
        updated_at = now;
      })
      l

abbrev pub exhausted : ℕ → Option String → DeployRecord → Bool
exhausted now host r =
    status_eq r.status verifying
    && (leb max_verification_claims r.claim_count && (passed now r.lease_until && on_host host r))

unfoldable pub expire_exhausted : ℕ → Option String → Ledger → Ledger
expire_exhausted now host l =
    update_where (exhausted now host)
      (λ r. record r {
        status = degraded;
        owner = none;
        lease_until = none;
        failed_signals = timeout ∷ [];
        completed_at = some now;
        updated_at = now;
      })
      l

abbrev pub alert_lapsed : ℕ → String → DeployRecord → Bool
alert_lapsed now host r =
    str_eq r.host_key host
    && (status_eq r.status degraded
        && (leb max_alert_claims r.alert_claim_count
            && (not (is_some r.alert_sent_at)
                && (not (is_some r.alert_exhausted_at) && passed now r.alert_lease_until))))

unfoldable pub expire_alert_claims : ℕ → String → Ledger → Ledger
expire_alert_claims now host l =
    update_where (alert_lapsed now host)
      (λ r. record r {
        alert_exhausted_at = some now;
        alert_owner = none;
        alert_lease_until = none;
      })
      l
