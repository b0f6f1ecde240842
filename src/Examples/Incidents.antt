-- ===== src/Examples/Incidents.antt =====
-- The theorems on the incident ledger, at a failure that a run reports twice.
use hive_os.Base.{String, false, none, List, [], ◌∷◌, ◌≡◌, refl, arith, strip, str_eq, All}
use hive_os.Table.{count_where, first_where, update_where}
use hive_os.Observability.Incidents.{IncidentLedger, returned, empty_ledger, update}
use hive_os.Observability.Incidents.Record.{
  Failure, safe_key, safe_summary, truncate, one_line, or_else, normalized_source,
  normalized_severity, fingerprint_of, new_incident, settle, occur, occurrence_of, active_of, write,
  record_failure,
}
use hive_os.Observability.Incidents.Histories.{Op, write_op, recover_op, finish_op, run}
use hive_os.Observability.Incidents.Unique.{
  IsUnique, RecoveredAtMost, incidents-IsUnique, recoveries_bounded,
}
use hive_os.Observability.Incidents.Occurrences.{occurrence_projected_once}

abbrev same_text : String → String
same_text s = s

abbrev failure : Failure
failure = record {
  source = "Gateway";
  summary = "smoke failed";
  severity = "error";
  run_id = "r1";
  task_id = none;
  evidence = "{}";
  occurrence_key = " run:r1:terminal ";
}

-- Two processes whose SELECTs both saw no incident, and a recovery.
abbrev ops : List Op
ops =
    write_op 1000 "u1" failure none
    ∷ write_op 1001 "u2" failure none
    ∷ recover_op 2000 "u1" 60000 3
    ∷ finish_op 3000 "u1" false "{}"
    ∷ []

incidents-IsUnique_example : IsUnique (run same_text same_text same_text empty_ledger ops)
incidents-IsUnique_example = incidents-IsUnique same_text same_text same_text ops

recoveries_bounded_example :
    All (RecoveredAtMost 3) (run same_text same_text same_text empty_ledger ops).incidents
recoveries_bounded_example =
    recoveries_bounded same_text same_text same_text 3 ops
      (omega arith, (omega arith, (omega arith, (omega arith, tt))))

abbrev recorded : IncidentLedger
recorded = (record_failure same_text same_text same_text 1000 "u1" failure empty_ledger).0

first_record :
    record_failure same_text same_text same_text 1000 "u1" failure empty_ledger
    ≡ (recorded, returned "u1")
unfolding record_failure occurrence_of active_of write settle occur safe_key safe_summary truncate
    one_line or_else normalized_source normalized_severity fingerprint_of new_incident update
    empty_ledger strip first_where count_where update_where
first_record = refl

has_key : str_eq (safe_key failure.occurrence_key) "" ≡ false
unfolding safe_key truncate strip
has_key = refl

occurrence_projected_once_example :
    record_failure same_text same_text same_text 5000 "u9" failure
      (run same_text same_text same_text recorded ops)
    ≡ (run same_text same_text same_text recorded ops, returned "u1")
occurrence_projected_once_example =
    occurrence_projected_once same_text same_text same_text 1000 5000 "u1" "u9" failure failure ops
      empty_ledger recorded "u1" has_key refl first_record
