-- ===== src/Core/Deployments/Alerts.antt =====
-- The alert and the incident of a degraded receipt: src/hive/core/deployment_ledger.py.
use hive_os.Base.{
  ℕ, ◌+◌, String, Bool, true, false, Option, none, some, ◌&&◌, ◌||◌, not, ltb, ◌==◌, if◌then◌else◌,
  str_eq, is_some,
}
use hive_os.Table.{select, first_where, update_where}
use hive_os.Table.Order.{order_by}
use hive_os.Core.Deployments.{
  degraded, status_eq, DeployRecord, Ledger, value_error, lookup_error, Result, returned, raised,
  has_id, passed, is_gateway, max_alert_claims, expire_unconfirmed, expire_exhausted,
  expire_alert_claims,
}
use hive_os.Core.Deployments.Checks.{is_key, is_duration}
use hive_os.Core.Deployments.Schedule.{reread, swept}
use hive_os.Core.Deployments.Claims.{head, is_owner, in_lease, max_lease}

-- ORDER BY completed_at, created_at, rowid; NULL comes first.
abbrev pub completed_before : DeployRecord → DeployRecord → Bool
completed_before a b = earlier a.completed_at b.completed_at
  where
    earlier : Option ℕ → Option ℕ → Bool
    earlier none (some t) = true
    earlier (some s) none = false
    earlier none none = ltb a.created_at b.created_at
    earlier (some s) (some t) = ltb s t || ((s == t) && ltb a.created_at b.created_at)

abbrev pub is_live : DeployRecord → Bool
is_live r = is_gateway r && not (str_eq r.baseline_process_id "")

abbrev pub needs_alert : ℕ → String → Bool → DeployRecord → Bool
needs_alert now host live_only r =
    str_eq r.host_key host
    && (status_eq r.status degraded
        && (not (is_some r.alert_sent_at)
            && (not (is_some r.alert_exhausted_at)
                && (ltb r.alert_claim_count max_alert_claims
                    && ((not live_only || is_live r)
                        && (not (is_some r.alert_lease_until)
                            || passed now r.alert_lease_until))))))

abbrev pub alert_claim : ℕ → String → ℕ → DeployRecord → DeployRecord
alert_claim now owner lease r = record r {
  alert_owner = some owner;
  alert_lease_until = some (now + lease);
  alert_claim_count = r.alert_claim_count + 1;
}

unfoldable pub claim_alert :
    ℕ → String → String → ℕ → Bool → Ledger → Ledger × Result (Option DeployRecord)
unfolding is_key is_duration expire_unconfirmed expire_exhausted expire_alert_claims order_by
claim_alert now host owner lease live_only l =
    if not (is_key host && (is_key owner && is_duration max_lease false lease))
    then (l, raised value_error)
    else (let before = expire_alert_claims now host (swept now host l) in
        elim (head (order_by completed_before (select (needs_alert now host live_only) before))) [
          | none ↦ (before, returned none)
          | some r ↦
              (let after = update_where (has_id r.id) (alert_claim now owner lease) before in
                (after, returned (first_where (has_id r.id) after)))
        ])

unfoldable pub mark_alert_sent : ℕ → String → String → ℕ → Ledger → Ledger × Result DeployRecord
unfolding is_key
mark_alert_sent now id owner claim_count l =
    if not (is_key owner) then (l, raised value_error) else elim (first_where (has_id id) l) [
      | none ↦ (l, raised lookup_error)
      | some r ↦
          if not (r.alert_claim_count == claim_count)
          then (l, raised value_error)
          else if is_some r.alert_sent_at && is_owner owner r.alert_owner
          then (l, returned r)
          else if not (
              status_eq r.status degraded
              && (not (is_some r.alert_exhausted_at)
                  && (is_owner owner r.alert_owner && in_lease now r.alert_lease_until)))
          then (l, raised value_error)
          else reread id r (
              update_where (has_id id)
                (λ x. record x { alert_sent_at = some now; alert_lease_until = none }) l)
    ]

unfoldable pub mark_alert_exhausted :
    ℕ → String → String → ℕ → Ledger → Ledger × Result DeployRecord
unfolding is_key
mark_alert_exhausted now id owner claim_count l =
    if not (is_key owner) then (l, raised value_error) else elim (first_where (has_id id) l) [
      | none ↦ (l, raised lookup_error)
      | some r ↦
          if not (
            (claim_count == max_alert_claims)
            && ((r.alert_claim_count == claim_count)
                && (status_eq r.status degraded
                    && (not (is_some r.alert_sent_at)
                        && (is_owner owner r.alert_owner && in_lease now r.alert_lease_until)))))
          then (l, raised value_error)
          else reread id r (
              update_where (has_id id)
                (λ x. record x {
                  alert_exhausted_at = some now;
                  alert_owner = none;
                  alert_lease_until = none;
                })
                l)
    ]

abbrev pub needs_incident : String → DeployRecord → Bool
needs_incident host r =
    str_eq r.host_key host && (status_eq r.status degraded && not (is_some r.incident_recorded_at))

unfoldable pub next_degraded_without_incident :
    ℕ → String → Ledger → Ledger × Result (Option DeployRecord)
unfolding is_key expire_unconfirmed expire_exhausted order_by
next_degraded_without_incident now host l =
    if not (is_key host)
    then (l, raised value_error)
    else (let before = swept now host l in
        (before, returned (head (order_by completed_before (select (needs_incident host) before)))))

unfoldable pub mark_incident_recorded : ℕ → String → String → Ledger → Ledger × Result DeployRecord
unfolding is_key
mark_incident_recorded now id host l =
    if not (is_key host) then (l, raised value_error) else elim (first_where (has_id id) l) [
      | none ↦ (l, raised lookup_error)
      | some r ↦
          if not (str_eq r.host_key host && status_eq r.status degraded)
          then (l, raised value_error)
          else if is_some r.incident_recorded_at
          then (l, returned r)
          else reread id r
              (update_where (has_id id) (λ x. record x { incident_recorded_at = some now }) l)
    ]

abbrev pub alert_failed : String → DeployRecord → Bool
alert_failed host r =
    str_eq r.host_key host
    && (status_eq r.status degraded && (is_some r.alert_exhausted_at && is_live r))

abbrev pub exhausted_before : DeployRecord → DeployRecord → Bool
exhausted_before a b = elim a.alert_exhausted_at [
  | none ↦ is_some b.alert_exhausted_at
  | some s ↦ elim b.alert_exhausted_at [ none ↦ false | some t ↦ ltb s t ]
]

unfoldable pub next_alert_failure_without_incident :
    ℕ → String → Ledger → Ledger × Result (Option DeployRecord)
unfolding is_key expire_alert_claims order_by
next_alert_failure_without_incident now host l =
    if not (is_key host)
    then (l, raised value_error)
    else (let before = expire_alert_claims now host l in
        (
          before,
          returned (
              head (
                order_by exhausted_before (
                  select (λ r. alert_failed host r && not (is_some r.alert_failure_recorded_at))
                    before))),
        ))

unfoldable pub mark_alert_failure_recorded :
    ℕ → String → String → Ledger → Ledger × Result DeployRecord
unfolding is_key
mark_alert_failure_recorded now id host l =
    if not (is_key host) then (l, raised value_error) else elim (first_where (has_id id) l) [
      | none ↦ (l, raised lookup_error)
      | some r ↦
          if not (alert_failed host r)
          then (l, raised value_error)
          else if is_some r.alert_failure_recorded_at
          then (l, returned r)
          else reread id r
              (update_where (has_id id) (λ x. record x { alert_failure_recorded_at = some now }) l)
    ]
