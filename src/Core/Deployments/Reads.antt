-- ===== src/Core/Deployments/Reads.antt =====
-- The reads of the deployment ledger: src/hive/core/deployment_ledger.py.
use hive_os.Base.{
  ℕ, zero, suc, ◌+◌, String, Bool, true, Option, none, some, List, [], ◌∷◌, ◌++◌, ◌&&◌, not, leb,
  if◌then◌else◌, str_eq, take, drop, length,
}
use hive_os.Table.{select}
use hive_os.Table.Order.{order_by}
use hive_os.Core.Deployments.{
  healthy, degraded, status_eq, Target, target_eq, Mode, mode_eq, DeployRecord, Ledger, value_error,
  Result, returned, raised, is_gateway,
}
use hive_os.Core.Deployments.Checks.{is_key, is_scope}
use hive_os.Core.Deployments.Schedule.{newest}
use hive_os.Core.Deployments.Alerts.{completed_before}

abbrev pub in_scope : Option String → DeployRecord → Bool
in_scope none r = true
in_scope (some scope) r = str_eq r.systemctl_scope scope && not (str_eq r.baseline_process_id "")

abbrev pub scope_ok : Option String → Bool
scope_ok none = true
scope_ok (some scope) = is_scope scope

unfoldable pub last_healthy_sha :
    String → Target → Mode → Option String → Ledger → Result (Option String)
unfolding is_key
last_healthy_sha host target mode scope l =
    if not (is_key host && scope_ok scope)
    then raised value_error
    else returned
        (elim (newest (
          select
            (λ r.
              str_eq r.host_key host
              && (target_eq r.target target
                  && (mode_eq r.mode mode && (status_eq r.status healthy && in_scope scope r))))
            l)) [ none ↦ none | some r ↦ some r.expected_sha ])

unfoldable pub degraded_records : String → ℕ → Ledger → Result (List DeployRecord)
unfolding is_key order_by
degraded_records host limit l =
    if not (is_key host && (leb 1 limit && leb limit 32))
    then raised value_error
    else returned (
        take limit (
          order_by completed_before
            (select (λ r. str_eq r.host_key host && status_eq r.status degraded) l)))

abbrev pub is_candidate : String → String → DeployRecord → Bool
is_candidate host scope r =
    str_eq r.host_key host
    && (status_eq r.status degraded
        && (is_gateway r
            && (str_eq r.systemctl_scope scope
                && (str_eq r.baseline_sha r.expected_sha
                    && (not (str_eq r.baseline_sha "") && not (str_eq r.started_process_id ""))))))

-- The rows of the query, before LIMIT and OFFSET.
unfoldable pub candidates : String → String → Ledger → List DeployRecord
unfolding order_by
candidates host scope l = order_by completed_before (select (is_candidate host scope) l)

-- The loop over the pages of a ledger that no other call changes, with `left` rounds to go; none
-- when they run out.
unfoldable pub pages : ℕ → ℕ → ℕ → List DeployRecord → Option (List DeployRecord)
pages zero page_size offset rows = none
pages (suc left) page_size offset rows =
    let page = take page_size (drop offset rows) in
    let rest = pages left page_size (offset + length page) rows in
    elim page [
      | [] ↦ some []
      | r ∷ rs ↦ elim rest [ none ↦ none | some found ↦ some ((r ∷ rs) ++ found) ]
    ]

unfoldable pub iter_gateway_recovery_candidates :
    String → String → ℕ → Ledger → Option (Result (List DeployRecord))
unfolding is_key candidates pages
iter_gateway_recovery_candidates host scope page_size l =
    if not (is_key host && (is_scope scope && (leb 1 page_size && leb page_size 32)))
    then some (raised value_error)
    else elim (pages (suc (length (candidates host scope l))) page_size 0
        (candidates host scope l)) [ none ↦ none | some found ↦ some (returned found) ]
