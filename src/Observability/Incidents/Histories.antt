-- ===== src/Observability/Incidents/Histories.antt =====
-- Calls on the incident ledger as values, and runs of calls by any processes.
use hive_os.Base.{ℕ, String, Bool, Option, List, [], ◌∷◌, max}
use hive_os.Observability.Incidents.{Status, IncidentLedger}
use hive_os.Observability.Incidents.Record.{Failure, write, record_failure}
use hive_os.Observability.Incidents.Recovery.{
  acknowledge, begin_diagnosis, record_remediation, begin_recovery, finish_recovery,
}

pub data Op : Type 0 where
  record_op : ℕ → String → Failure → Op
  -- The writes of a call whose SELECTs saw an older ledger.
  write_op : ℕ → String → Failure → Option String → Op
  acknowledge_op : ℕ → String → Op
  diagnose_op : ℕ → String → String → String → Op
  remediate_op : ℕ → String → Status → String → Op
  recover_op : ℕ → String → ℕ → ℕ → Op
  finish_op : ℕ → String → Bool → String → Op

module _ (lower casefold sha256 : String → String) where
  unfoldable pub apply : Op → IncidentLedger → IncidentLedger
  apply (record_op now uuid f) l = (record_failure lower casefold sha256 now uuid f l).0
  apply (write_op now uuid f seen) l = (write lower casefold sha256 now uuid f seen l).0
  apply (acknowledge_op now id) l = (acknowledge now id l).0
  apply (diagnose_op now id run_id evidence) l = (begin_diagnosis now id run_id evidence l).0
  apply (remediate_op now id status evidence) l = (record_remediation now id status evidence l).0
  apply (recover_op now id cooldown limit) l = (begin_recovery now id cooldown limit l).0
  apply (finish_op now id is_resolved evidence) l =
      (finish_recovery now id is_resolved evidence l).0

  unfoldable pub run : IncidentLedger → List Op → IncidentLedger
  run l [] = l
  run l (op ∷ ops) = run (apply op l) ops

-- The recoveries that a call allows an incident in all.
abbrev pub limit_of : Op → ℕ
limit_of (recover_op now id cooldown limit) = max 1 limit
limit_of _ = 0
