-- ===== src/Observability/Incidents/Views.antt =====
-- The lists of incidents that operators read: src/hive/observability/incidents.py.
use Prim.Native.String
use hive_os.Base.{
  ℕ, String, Bool, List, [], ◌&&◌, ◌||◌, ltb, ◌==◌, if◌then◌else◌, str_eq, strip, take, min, max,
  map,
}
use hive_os.Table.{select, count_where}
use hive_os.Table.Order.{order_by}
use hive_os.Observability.Incidents.{Status, Incident, IncidentLedger, has_key}

unfoldable pub recent : ℕ → IncidentLedger → List Incident
unfolding order_by
recent limit l =
    take (max 1 (min limit 200)) (order_by (λ a b. ltb b.updated_ts a.updated_ts) l.incidents)

-- ORDER BY updated_ts DESC, incident_id; `before` is the order of the ids.
unfoldable pub for_run :
    (String → String → Bool) → String → IncidentLedger → List (String × (String × Status))
unfolding order_by strip
for_run before run_id l =
    let run = strip run_id in
    if str_eq run ""
    then []
    else (let terminal = String.◌++◌ "run:" (String.◌++◌ run ":terminal") in
        let linked : Incident → Bool = λ i.
          str_eq i.run_id run
          || ltb 0 (
              count_where (λ e. has_key terminal e && str_eq e.incident_id i.incident_id)
                l.events) in
        map (λ i. (i.incident_id, (i.severity, i.status)))
          (take 20 (
            order_by
              (λ a b.
                ltb b.updated_ts a.updated_ts
                || ((a.updated_ts == b.updated_ts) && before a.incident_id b.incident_id))
              (select linked l.incidents))))
