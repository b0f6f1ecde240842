-- ===== src/Core/Deployments/Schedule.antt =====
-- `schedule`, `confirm_restart` and `confirm_gateway_start`: src/hive/core/deployment_ledger.py.
use hive_os.Base.{
  ℕ, ◌+◌, String, Bool, true, Option, none, some, List, [], ◌∷◌, ◌++◌, ◌&&◌, ◌||◌, not, leb, ltb,
  if◌then◌else◌, str_eq, is_some, max,
}
use hive_os.Table.{select, count_where, first_where, update_where}
use hive_os.Autonomy.Tasks.{seconds}
use hive_os.Core.Deployments.{
  Status, pending, verifying, status_eq, Target, target_eq, gateway, Mode, mode_eq, systemctl,
  DeployRecord, Ledger, value_error, lookup_error, integrity_error, Result, returned, raised,
  has_id, is_gateway, expire_unconfirmed, expire_exhausted,
}
use hive_os.Core.Deployments.Checks.{is_key, is_sha, is_process_id, is_scope, is_duration}

-- The arguments of `schedule`.
pub record Request : Type 0 where
  pub run_id : String
  pub target : Target
  pub mode : Mode
  pub host_key : String
  pub expected_sha : String
  pub baseline_sha : String
  pub settling : ℕ
  pub await_restart : Bool
  pub baseline_process_id : String
  pub exclusive : Bool
  pub systemctl_scope : String

abbrev pub max_settling : ℕ
max_settling = seconds 3600

-- The checks of the source, any of which raises a ValueError.
unfoldable pub is_valid : Request → Bool
unfolding is_key is_sha is_process_id is_duration
is_valid q =
    (is_key q.run_id && is_key q.host_key)
    && ((is_sha q.expected_sha && (str_eq q.baseline_sha "" || is_sha q.baseline_sha))
        && (is_duration max_settling true q.settling
            && ((str_eq q.baseline_process_id "" || is_process_id q.baseline_process_id)
                && ((not q.exclusive || q.await_restart)
                    && (is_scope q.systemctl_scope
                        && (not q.exclusive
                            || (target_eq q.target gateway
                                && (mode_eq q.mode systemctl
                                    && not (str_eq q.baseline_process_id "")))))))))

-- status IN ('pending', 'verifying')
abbrev pub in_progress : Status → Bool
in_progress s = status_eq s pending || status_eq s verifying

abbrev pub is_rival : Request → DeployRecord → Bool
is_rival q r =
    str_eq r.host_key q.host_key
    && (target_eq r.target q.target && (mode_eq r.mode q.mode && in_progress r.status))

-- The two expiries on a host, with which most calls begin.
abbrev pub swept : ℕ → String → Ledger → Ledger
swept now host l = expire_exhausted now (some host) (expire_unconfirmed now (some host) l)

module _ (lower : String → String) where
  -- The INSERT, with the defaults of the table.
  unfoldable pub new_record : ℕ → String → Request → DeployRecord
  new_record now id q = record {
    id = id;
    run_id = q.run_id;
    target = q.target;
    mode = q.mode;
    host_key = q.host_key;
    expected_sha = lower q.expected_sha;
    baseline_sha = lower q.baseline_sha;
    status = pending;
    due_at = now + (if q.await_restart then seconds 60 else q.settling);
    created_at = now;
    updated_at = now;
    claim_count = 0;
    owner = none;
    lease_until = none;
    failed_signals = [];
    completed_at = none;
    alert_owner = none;
    alert_lease_until = none;
    alert_claim_count = 0;
    alert_sent_at = none;
    alert_exhausted_at = none;
    alert_failure_recorded_at = none;
    incident_recorded_at = none;
    restart_confirmed_at = if q.await_restart then none else some now;
    baseline_process_id = q.baseline_process_id;
    started_process_id = "";
    systemctl_scope = q.systemctl_scope;
  }

  -- An exception rolls the transaction back, the expiries included.
  unfoldable pub schedule : ℕ → String → Request → Ledger → Ledger × Result DeployRecord
  unfolding is_valid new_record expire_exhausted expire_unconfirmed
  schedule now uuid q l =
      let before = if q.exclusive then swept now q.host_key l else l in
      if not (is_valid q)
      then (l, raised value_error)
      else if q.exclusive && ltb 0 (count_where (is_rival q) before)
      then (l, raised value_error)
      else if ltb 0 (count_where (has_id uuid) before)
      then (l, raised integrity_error)
      else (before ++ new_record now uuid q ∷ [], returned (new_record now uuid q))

-- The row after an UPDATE of one key, as the second SELECT reads it.
abbrev pub reread : String → DeployRecord → Ledger → Ledger × Result DeployRecord
reread id old l =
    (l, elim (first_where (has_id id) l) [ none ↦ returned old | some r ↦ returned r ])

unfoldable pub confirm_restart : ℕ → String → ℕ → Ledger → Ledger × Result DeployRecord
unfolding is_duration
confirm_restart now id settling l =
    if not (is_duration max_settling true settling)
    then (l, raised value_error)
    else elim (first_where (has_id id) l) [
      | none ↦ (l, raised lookup_error)
      | some r ↦
          if not (status_eq r.status pending)
            || (is_some r.restart_confirmed_at
                || (not (str_eq r.baseline_process_id "") || leb r.due_at now))
          then (l, raised value_error)
          else reread id r (
              update_where (has_id id)
                (λ x. record x {
                  restart_confirmed_at = some now;
                  due_at = now + settling;
                  updated_at = now;
                })
                l)
    ]

-- ORDER BY created_at DESC, rowid DESC: `last` rows first, with the later row of two equal ones.
abbrev pub newest : List DeployRecord → Option DeployRecord
newest [] = none
newest (r ∷ rs) =
    let rest = newest rs in
    elim rest [ none ↦ some r | some s ↦ if ltb s.created_at r.created_at then some r else some s ]

abbrev pub awaits_gateway : String → String → DeployRecord → Bool
awaits_gateway host scope r =
    str_eq r.host_key host
    && (is_gateway r
        && (str_eq r.systemctl_scope scope
            && (status_eq r.status pending
                && (not (is_some r.restart_confirmed_at)
                    && not (str_eq r.baseline_process_id "")))))

unfoldable pub confirm_gateway_start :
    (String → String)
    → ℕ
    → String
    → String
    → String
    → ℕ
    → String
    → Ledger
    → Ledger × Result (Option DeployRecord)
unfolding is_key is_sha is_process_id is_duration expire_unconfirmed
confirm_gateway_start lower now host source process settling scope l =
    if not (is_key host)
    then (l, raised value_error)
    else if not (is_sha source && (is_process_id process && is_scope scope))
    then (l, returned none)
    else if not (is_duration max_settling true settling)
    then (l, raised value_error)
    else (let before = expire_unconfirmed now (some host) l in
        elim (newest (select (awaits_gateway host scope) before)) [
          | none ↦ (before, returned none)
          | some r ↦
              if not (str_eq r.expected_sha (lower source)) || str_eq r.baseline_process_id process
              then (before, returned none)
              else (let after =
                    update_where (has_id r.id)
                      (λ x. record x {
                        restart_confirmed_at = some now;
                        started_process_id = process;
                        due_at = max (now + settling) (r.created_at + seconds 60);
                        updated_at = now;
                      })
                      before in
                  (after, returned (first_where (has_id r.id) after)))
        ])
