-- ===== src/Examples/Deployments.antt =====
-- The theorems on the deployment ledger, at a gateway that is verified twice.
use hive_os.Base.{
  suc, String, true, false, Option, none, some, List, [], ◌∷◌, ◌≡◌, refl, All, length, ◌+◌,
}
use hive_os.Table.{count_where, first_where, update_where, select}
use hive_os.Table.Order.{insert_by, order_by}
use hive_os.Core.Deployments.{
  healthy, degraded, status_eq, gateway, systemctl, DeployRecord, Ledger, value_error, Result,
  returned, raised, get, expire_unconfirmed, expire_exhausted,
}
use hive_os.Core.Deployments.Checks.{
  is_key, is_sha, is_process_id, is_duration, between, is_digit, is_letter, is_key_char, all_chars,
  size, is_hex, is_lower_hex,
}
use hive_os.Core.Deployments.Schedule.{Request, is_valid, new_record, schedule}
use hive_os.Core.Deployments.Claims.{claim_due, finish, mark_restart_failed}
use hive_os.Core.Deployments.Reads.{candidates, pages, iter_gateway_recovery_candidates}
use hive_os.Core.Deployments.Histories.{
  Op, schedule_op, restart_failed_op, claim_op, alert_op, apply, run,
}
use hive_os.Core.Deployments.Steps.{IsSound}
use hive_os.Core.Deployments.Sound.{receipts-IsSound, degraded_is_final, stale_claim_refused}
use hive_os.Core.Deployments.Paging.{pages_complete}

abbrev same_text : String → String
same_text s = s

abbrev request : Request
request = record {
  run_id = "r1";
  target = gateway;
  mode = systemctl;
  host_key = "h1";
  expected_sha = "0123456789abcdef0123456789abcdef01234567";
  baseline_sha = "";
  settling = 30000;
  await_restart = false;
  baseline_process_id = "";
  exclusive = false;
  systemctl_scope = "system";
}

abbrev scheduled : List Op
scheduled = schedule_op 1000 "u1" request ∷ []

abbrev ledger : Ledger
ledger = run same_text [] scheduled

abbrev found_row : Option DeployRecord → DeployRecord
found_row none = new_record same_text 0 "" request
found_row (some r) = r

receipts-IsSound_example : All IsSound (
    run same_text [] (
      schedule_op 1000 "u1" request
      ∷ claim_op 40000 "h1" "w1" 60000
      ∷ alert_op 50000 "h1" "w1" 60000 false
      ∷ []))
receipts-IsSound_example = receipts-IsSound same_text (
    schedule_op 1000 "u1" request
    ∷ claim_op 40000 "h1" "w1" 60000
    ∷ alert_op 50000 "h1" "w1" 60000 false
    ∷ [])

-- The restart of the receipt fails.
abbrev restart_failed : List Op
restart_failed = schedule_op 1000 "u1" request ∷ restart_failed_op 2000 "u1" ∷ []

abbrev failed_row : DeployRecord
failed_row = found_row (get "u1" (run same_text [] restart_failed))

failed_found : get "u1" (run same_text [] restart_failed) ≡ some failed_row
unfolding run apply schedule is_valid new_record is_key is_sha is_process_id is_duration between
    is_digit is_letter is_key_char all_chars size is_hex is_lower_hex mark_restart_failed get
    first_where count_where update_where
failed_found = refl

failed_is_degraded : status_eq failed_row.status degraded ≡ true
unfolding run apply schedule is_valid new_record is_key is_sha is_process_id is_duration between
    is_digit is_letter is_key_char all_chars size is_hex is_lower_hex mark_restart_failed get
    first_where count_where update_where
failed_is_degraded = refl

degraded_is_final_example :
    (e : DeployRecord) × ((get "u1"
          (run same_text (run same_text [] restart_failed) (claim_op 90000 "h1" "w1" 60000 ∷ []))
        ≡ some e)
      × (status_eq e.status degraded ≡ true))
degraded_is_final_example =
    degraded_is_final same_text restart_failed (claim_op 90000 "h1" "w1" 60000 ∷ []) "u1" failed_row
      failed_found failed_is_degraded

-- A claim, and a second one after the lease of the first.
abbrev claimed : Result (Option DeployRecord) → DeployRecord
claimed (returned o) = found_row o
claimed (raised e) = found_row none

abbrev first_ledger : Ledger
first_ledger = (claim_due 40000 "h1" "w1" 60000 ledger).0

abbrev first_row : DeployRecord
first_row = claimed (claim_due 40000 "h1" "w1" 60000 ledger).1

first_claim : claim_due 40000 "h1" "w1" 60000 ledger ≡ (first_ledger, returned (some first_row))
unfolding run apply schedule is_valid new_record is_key is_sha is_process_id is_duration between
    is_digit is_letter is_key_char all_chars size is_hex is_lower_hex claim_due expire_unconfirmed
    expire_exhausted insert_by order_by select first_where count_where update_where
first_claim = refl

abbrev second_ledger : Ledger
second_ledger = (claim_due 200000 "h1" "w2" 60000 (run same_text first_ledger [])).0

abbrev second_row : DeployRecord
second_row = claimed (claim_due 200000 "h1" "w2" 60000 (run same_text first_ledger [])).1

second_claim :
    claim_due 200000 "h1" "w2" 60000 (run same_text first_ledger [])
    ≡ (second_ledger, returned (some second_row))
unfolding run apply schedule is_valid new_record is_key is_sha is_process_id is_duration between
    is_digit is_letter is_key_char all_chars size is_hex is_lower_hex claim_due expire_unconfirmed
    expire_exhausted insert_by order_by select first_where count_where update_where
second_claim = refl

same_receipt : second_row.id ≡ first_row.id
unfolding run apply schedule is_valid new_record is_key is_sha is_process_id is_duration between
    is_digit is_letter is_key_char all_chars size is_hex is_lower_hex claim_due expire_unconfirmed
    expire_exhausted insert_by order_by select first_where count_where update_where
same_receipt = refl

stale_claim_refused_example :
    finish 210000 first_row.id "w1" healthy [] first_row.claim_count
      (run same_text second_ledger [])
    ≡ (run same_text second_ledger [], raised value_error)
stale_claim_refused_example =
    stale_claim_refused same_text scheduled [] [] 40000 200000 210000 "h1" "h1" "w1" "w2" "w1" 60000
      60000 healthy [] first_ledger second_ledger first_row second_row first_claim second_claim
      same_receipt

key_ok : is_key "h1" ≡ true
unfolding is_key between is_digit is_letter is_key_char all_chars size
key_ok = refl

-- Two receipts that a recovery may take up, on pages of one.
abbrev lost : String → DeployRecord
lost id = record (new_record same_text 1000 id request) {
  status = degraded;
  baseline_sha = request.expected_sha;
  started_process_id = "p1";
  completed_at = some 5000;
}

abbrev recoverable : Ledger
recoverable = lost "u1" ∷ lost "u2" ∷ []

pages_complete_example :
    (iter_gateway_recovery_candidates "h1" "system" 1 recoverable
      ≡ some (returned (candidates "h1" "system" recoverable)))
    × (pages
          (suc (length (candidates "h1" "system" recoverable)) + 3)
          1
          0
          (candidates "h1" "system" recoverable)
        ≡ some (candidates "h1" "system" recoverable))
pages_complete_example = pages_complete "h1" "system" 1 3 recoverable key_ok refl refl

two_candidates : length (candidates "h1" "system" recoverable) ≡ 2
unfolding candidates new_record insert_by order_by select
two_candidates = refl
