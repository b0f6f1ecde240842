-- ===== src/Core/Deployments/Steps/Runs.antt =====
-- The calls on alerts and incidents, and whole histories, are runs of steps.
use hive_os.Base.{
  ℕ, String, Bool, true, false, not, some, List, [], ◌∷◌, refl, inl, inr, Bool-cases, Option-cases,
  arith, str_eq, ◌&&◌, ◌||◌, ◌==◌, is_some,
}
use hive_os.Table.{select, first_where}
use hive_os.Table.Order.{order_by}
use hive_os.Table.Members.{Among-select, Among-order_by}
use hive_os.Core.Deployments.{
  status_eq, degraded, Ledger, value_error, returned, raised, has_id, expire_unconfirmed,
  expire_alert_claims, max_alert_claims,
}
use hive_os.Core.Deployments.Checks.{is_key, is_duration, is_sha, is_process_id, is_scope}
use hive_os.Core.Deployments.Schedule.{
  swept, max_settling, newest, awaits_gateway, confirm_gateway_start,
}
use hive_os.Core.Deployments.Claims.{max_lease, head, is_owner, in_lease}
use hive_os.Core.Deployments.Alerts.{
  completed_before, needs_alert, alert_claim, claim_alert, mark_alert_sent, mark_alert_exhausted,
  next_degraded_without_incident, mark_incident_recorded, alert_failed,
  next_alert_failure_without_incident, mark_alert_failure_recorded,
}
use hive_os.Core.Deployments.Steps.{Step, nothing, followed, updated}
use hive_os.Core.Deployments.Steps.Rows.{plain-RowStep}
use hive_os.Core.Deployments.Steps.Calls.{
  guarded, sweeps-Step, unconfirmed-Step, alerts-Step, plain-Step, head-Among, newest-Among,
  schedule-Step, confirm_restart-Step, finish-Step, mark_restart_failed-Step, claim_due-Step,
}
use hive_os.Core.Deployments.Histories.{
  Op, schedule_op, confirm_op, gateway_op, claim_op, finish_op, restart_failed_op, alert_op,
  sent_op, exhausted_op, degraded_op, incident_op, alert_failure_op, failure_recorded_op, apply,
  run,
}

confirm_gateway_start-Step :
    (lower : String → String) (now : ℕ) (host source process : String) (settling : ℕ)
    (scope : String) (l : Ledger)
    → Step l (confirm_gateway_start lower now host source process settling scope l).0
unfolding confirm_gateway_start
confirm_gateway_start-Step lower now host source process settling scope l =
    guarded (not (is_key host)) l _ _ (
      guarded (not (is_sha source && (is_process_id process && is_scope scope))) l _ _ (
        guarded (not (is_duration max_settling true settling)) l _ _
          (elim (Option-cases (newest (select (awaits_gateway host scope) before))) [
            | inl idle ↦ rw idle (unconfirmed-Step now (some host) l)
            | inr (r, last) ↦
                let (here, waits) =
                  Among-select (awaits_gateway host scope) before r
                    (newest-Among (select (awaits_gateway host scope) before) r last) in
                rw last
                  (elim (Bool-cases (
                    not (str_eq r.expected_sha (lower source))
                    || str_eq r.baseline_process_id process)) [
                      | inl other ↦ rw other (unconfirmed-Step now (some host) l)
                      | inr same ↦ rw same (
                          followed (unconfirmed-Step now (some host) l) (
                            updated before r _ here (λ x. refl)
                              (plain-RowStep r _ refl (refl, (refl, (refl, (refl, (refl, refl)))))
                                (λ h. h.alerts) (λ h. h.one_outcome))))
                    ])
          ])))
  where
    before : Ledger
    before = expire_unconfirmed now (some host) l

claim_alert-Step :
    (now : ℕ) (host owner : String) (lease : ℕ) (live_only : Bool) (l : Ledger)
    → Step l (claim_alert now host owner lease live_only l).0
unfolding claim_alert
claim_alert-Step now host owner lease live_only l =
    guarded (not (is_key host && (is_key owner && is_duration max_lease false lease))) l _ _
      (elim (Option-cases
        (head (order_by completed_before (select (needs_alert now host live_only) before)))) [
          | inl idle ↦ rw idle first
          | inr (r, next) ↦
              let (here, waits) = Among-select (needs_alert now host live_only) before r (
                Among-order_by completed_before (select (needs_alert now host live_only) before) r
                  (head-Among _ r next)) in
              rw next (
                followed first (
                  updated before r (alert_claim now owner lease) here (λ x. refl)
                    (plain-RowStep r _ refl (refl, (refl, (refl, (refl, (refl, refl)))))
                      (λ h. ground arith) (λ h. h.one_outcome))))
        ])
  where
    before : Ledger
    before = expire_alert_claims now host (swept now host l)

    first : Step l before
    first = followed (sweeps-Step now host l) (alerts-Step now host _)

mark_alert_sent-Step :
    (now : ℕ) (id owner : String) (claims : ℕ) (l : Ledger)
    → Step l (mark_alert_sent now id owner claims l).0
unfolding mark_alert_sent
mark_alert_sent-Step now id owner claims l =
    guarded (not (is_key owner)) l _ _ (elim (Option-cases (first_where (has_id id) l)) [
      | inl gone ↦ rw gone nothing
      | inr (r, found) ↦ rw found (
          guarded (not (r.alert_claim_count == claims)) l (raised value_error) _ (
            guarded (is_some r.alert_sent_at && is_owner owner r.alert_owner) l (returned r) _
              (elim (Bool-cases (
                status_eq r.status degraded
                && (not (is_some r.alert_exhausted_at)
                    && (is_owner owner r.alert_owner && in_lease now r.alert_lease_until)))) [
                      | inr idle ↦ rw idle nothing
                      | inl held ↦ rw held (
                          plain-Step l id r _ found (λ x. refl)
                            (refl, (refl, (refl, (refl, (refl, refl))))) (λ h. h.alerts)
                            (λ h. inr (ground arith)))
                    ])))
    ])

mark_alert_exhausted-Step :
    (now : ℕ) (id owner : String) (claims : ℕ) (l : Ledger)
    → Step l (mark_alert_exhausted now id owner claims l).0
unfolding mark_alert_exhausted
mark_alert_exhausted-Step now id owner claims l =
    guarded (not (is_key owner)) l _ _ (elim (Option-cases (first_where (has_id id) l)) [
      | inl gone ↦ rw gone nothing
      | inr (r, found) ↦
          rw found
            (elim (Bool-cases (
              (claims == max_alert_claims)
              && ((r.alert_claim_count == claims)
                  && (status_eq r.status degraded
                      && (not (is_some r.alert_sent_at)
                          && (is_owner owner r.alert_owner
                              && in_lease now r.alert_lease_until)))))) [
                                | inr idle ↦ rw idle nothing
                                | inl held ↦ rw held (
                                    plain-Step l id r _ found (λ x. refl)
                                      (refl, (refl, (refl, (refl, (refl, refl))))) (λ h. h.alerts)
                                      (λ h. inl (ground arith)))
                              ])
    ])

mark_incident_recorded-Step :
    (now : ℕ) (id host : String) (l : Ledger) → Step l (mark_incident_recorded now id host l).0
unfolding mark_incident_recorded
mark_incident_recorded-Step now id host l =
    guarded (not (is_key host)) l _ _ (elim (Option-cases (first_where (has_id id) l)) [
      | inl gone ↦ rw gone nothing
      | inr (r, found) ↦ rw found (
          guarded (not (str_eq r.host_key host && status_eq r.status degraded)) l
            (raised value_error) _
            (guarded (is_some r.incident_recorded_at) l (returned r) _ (
              plain-Step l id r _ found (λ x. refl) (refl, (refl, (refl, (refl, (refl, refl)))))
                (λ h. h.alerts) (λ h. h.one_outcome))))
    ])

mark_alert_failure_recorded-Step :
    (now : ℕ) (id host : String) (l : Ledger) → Step l (mark_alert_failure_recorded now id host l).0
unfolding mark_alert_failure_recorded
mark_alert_failure_recorded-Step now id host l =
    guarded (not (is_key host)) l _ _ (elim (Option-cases (first_where (has_id id) l)) [
      | inl gone ↦ rw gone nothing
      | inr (r, found) ↦ rw found (
          guarded (not (alert_failed host r)) l (raised value_error) _ (
            guarded (is_some r.alert_failure_recorded_at) l (returned r) _ (
              plain-Step l id r _ found (λ x. refl) (refl, (refl, (refl, (refl, (refl, refl)))))
                (λ h. h.alerts) (λ h. h.one_outcome))))
    ])

module _ (lower : String → String) where
  apply-Step : (op : Op) (l : Ledger) → Step l (apply lower op l)
  unfolding apply next_degraded_without_incident next_alert_failure_without_incident
  apply-Step (schedule_op now uuid q) l = schedule-Step lower now uuid q l
  apply-Step (confirm_op now id settling) l = confirm_restart-Step now id settling l
  apply-Step (gateway_op now host source process settling scope) l =
      confirm_gateway_start-Step lower now host source process settling scope l
  apply-Step (claim_op now host owner lease) l = claim_due-Step now host owner lease l
  apply-Step (finish_op now id owner verdict failed claims) l =
      finish-Step now id owner verdict failed claims l
  apply-Step (restart_failed_op now id) l = mark_restart_failed-Step now id l
  apply-Step (alert_op now host owner lease live_only) l =
      claim_alert-Step now host owner lease live_only l
  apply-Step (sent_op now id owner claims) l = mark_alert_sent-Step now id owner claims l
  apply-Step (exhausted_op now id owner claims) l = mark_alert_exhausted-Step now id owner claims l
  apply-Step (degraded_op now host) l = guarded (not (is_key host)) l _ _ (sweeps-Step now host l)
  apply-Step (incident_op now id host) l = mark_incident_recorded-Step now id host l
  apply-Step (alert_failure_op now host) l =
      guarded (not (is_key host)) l _ _ (alerts-Step now host l)
  apply-Step (failure_recorded_op now id host) l = mark_alert_failure_recorded-Step now id host l

  pub run-Step : (ops : List Op) (l : Ledger) → Step l (run lower l ops)
  unfolding run
  run-Step [] l = nothing
  run-Step (op ∷ ops) l = followed (apply-Step op l) (run-Step ops (apply lower op l))
