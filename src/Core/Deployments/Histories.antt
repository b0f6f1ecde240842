-- ===== src/Core/Deployments/Histories.antt =====
-- The calls of the deployment ledger as values, and runs of calls by any processes.
use hive_os.Base.{ℕ, String, Bool, List, [], ◌∷◌}
use hive_os.Core.Deployments.{Status, Signal, Ledger}
use hive_os.Core.Deployments.Schedule.{Request, schedule, confirm_restart, confirm_gateway_start}
use hive_os.Core.Deployments.Claims.{claim_due, finish, mark_restart_failed}
use hive_os.Core.Deployments.Alerts.{
  claim_alert, mark_alert_sent, mark_alert_exhausted, next_degraded_without_incident,
  mark_incident_recorded, next_alert_failure_without_incident, mark_alert_failure_recorded,
}

pub data Op : Type 0 where
  schedule_op : ℕ → String → Request → Op
  confirm_op : ℕ → String → ℕ → Op
  gateway_op : ℕ → String → String → String → ℕ → String → Op
  claim_op : ℕ → String → String → ℕ → Op
  finish_op : ℕ → String → String → Status → List Signal → ℕ → Op
  restart_failed_op : ℕ → String → Op
  alert_op : ℕ → String → String → ℕ → Bool → Op
  sent_op : ℕ → String → String → ℕ → Op
  exhausted_op : ℕ → String → String → ℕ → Op
  degraded_op : ℕ → String → Op
  incident_op : ℕ → String → String → Op
  alert_failure_op : ℕ → String → Op
  failure_recorded_op : ℕ → String → String → Op

module _ (lower : String → String) where
  unfoldable pub apply : Op → Ledger → Ledger
  apply (schedule_op now uuid q) l = (schedule lower now uuid q l).0
  apply (confirm_op now id settling) l = (confirm_restart now id settling l).0
  apply (gateway_op now host source process settling scope) l =
      (confirm_gateway_start lower now host source process settling scope l).0
  apply (claim_op now host owner lease) l = (claim_due now host owner lease l).0
  apply (finish_op now id owner verdict failed claims) l =
      (finish now id owner verdict failed claims l).0
  apply (restart_failed_op now id) l = (mark_restart_failed now id l).0
  apply (alert_op now host owner lease live_only) l =
      (claim_alert now host owner lease live_only l).0
  apply (sent_op now id owner claims) l = (mark_alert_sent now id owner claims l).0
  apply (exhausted_op now id owner claims) l = (mark_alert_exhausted now id owner claims l).0
  apply (degraded_op now host) l = (next_degraded_without_incident now host l).0
  apply (incident_op now id host) l = (mark_incident_recorded now id host l).0
  apply (alert_failure_op now host) l = (next_alert_failure_without_incident now host l).0
  apply (failure_recorded_op now id host) l = (mark_alert_failure_recorded now id host l).0

  unfoldable pub run : Ledger → List Op → Ledger
  run l [] = l
  run l (op ∷ ops) = run (apply op l) ops
