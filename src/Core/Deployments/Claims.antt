-- ===== src/Core/Deployments/Claims.antt =====
-- The leased verification of a receipt, and its verdict: src/hive/core/deployment_ledger.py.
use hive_os.Base.{
  ℕ, ◌+◌, String, Bool, true, false, Option, none, some, List, [], ◌∷◌, ◌&&◌, ◌||◌, not, leb, ltb,
  ◌==◌, if◌then◌else◌, str_eq, is_some,
}
use hive_os.Table.{select, first_where, update_where}
use hive_os.Table.Order.{order_by}
use hive_os.Autonomy.Tasks.{seconds}
use hive_os.Core.Deployments.{
  Status, pending, verifying, healthy, degraded, status_eq, Signal, restart, DeployRecord, Ledger,
  value_error, lookup_error, Result, returned, raised, has_id, passed, max_verification_claims,
  expire_unconfirmed, expire_exhausted,
}
use hive_os.Core.Deployments.Checks.{is_key, is_duration, signals}
use hive_os.Core.Deployments.Schedule.{reread, swept}

abbrev pub max_lease : ℕ
max_lease = seconds 3600

abbrev pub claimable : ℕ → String → DeployRecord → Bool
claimable now host r =
    str_eq r.host_key host
    && (leb r.due_at now
        && (is_some r.restart_confirmed_at
            && (status_eq r.status pending
                || (status_eq r.status verifying
                    && (passed now r.lease_until && ltb r.claim_count max_verification_claims)))))

-- ORDER BY due_at, created_at, rowid
abbrev pub due_before : DeployRecord → DeployRecord → Bool
due_before a b = ltb a.due_at b.due_at || ((a.due_at == b.due_at) && ltb a.created_at b.created_at)

abbrev pub head : List DeployRecord → Option DeployRecord
head [] = none
head (r ∷ rs) = some r

abbrev pub verify_claim : ℕ → String → ℕ → DeployRecord → DeployRecord
verify_claim now owner lease r = record r {
  status = verifying;
  claim_count = r.claim_count + 1;
  owner = some owner;
  lease_until = some (now + lease);
  updated_at = now;
}

unfoldable pub claim_due : ℕ → String → String → ℕ → Ledger → Ledger × Result (Option DeployRecord)
unfolding is_key is_duration expire_unconfirmed expire_exhausted order_by
claim_due now host owner lease l =
    if not (is_key host && (is_key owner && is_duration max_lease false lease))
    then (l, raised value_error)
    else (let before = swept now host l in
        elim (head (order_by due_before (select (claimable now host) before))) [
          | none ↦ (before, returned none)
          | some r ↦
              (let after = update_where (has_id r.id) (verify_claim now owner lease) before in
                (after, returned (first_where (has_id r.id) after)))
        ])

abbrev pub is_owner : String → Option String → Bool
is_owner owner none = false
is_owner owner (some o) = str_eq o owner

-- The lease has an end after `now`; the row of a claim has an end.
abbrev pub in_lease : ℕ → Option ℕ → Bool
in_lease now none = false
in_lease now (some t) = ltb now t

abbrev pub is_verdict : Status → Bool
is_verdict s = status_eq s healthy || status_eq s degraded

-- A healthy verdict has no failed signals, a degraded one has some.
abbrev pub matches : Status → List Signal → Bool
matches healthy [] = true
matches degraded (s ∷ ss) = true
matches _ _ = false

abbrev pub conclude : ℕ → Status → List Signal → DeployRecord → DeployRecord
conclude now verdict failed r = record r {
  status = verdict;
  failed_signals = failed;
  completed_at = some now;
  lease_until = none;
  updated_at = now;
}

unfoldable pub finish :
    ℕ → String → String → Status → List Signal → ℕ → Ledger → Ledger × Result DeployRecord
unfolding is_key signals
finish now id owner verdict failed claim_count l =
    if not (is_key owner && is_verdict verdict)
    then (l, raised value_error)
    else elim (signals failed) [
      | none ↦ (l, raised value_error)
      | some codes ↦
          if not (matches verdict codes)
          then (l, raised value_error)
          else elim (first_where (has_id id) l) [
            | none ↦ (l, raised lookup_error)
            | some r ↦
                if not (
                  status_eq r.status verifying
                  && (is_owner owner r.owner
                      && (in_lease now r.lease_until && (r.claim_count == claim_count))))
                then (l, raised value_error)
                else reread id r (update_where (has_id id) (conclude now verdict codes) l)
          ]
    ]

unfoldable pub mark_restart_failed : ℕ → String → Ledger → Ledger × Result DeployRecord
mark_restart_failed now id l = elim (first_where (has_id id) l) [
  | none ↦ (l, raised lookup_error)
  | some r ↦
      if status_eq r.status degraded
      then (l, returned r)
      else if status_eq r.status healthy && str_eq r.baseline_process_id ""
      then (l, raised value_error)
      else reread id r (
          update_where (has_id id)
            (λ x. record x {
              status = degraded;
              failed_signals = restart ∷ [];
              owner = none;
              lease_until = none;
              completed_at = some now;
              updated_at = now;
            })
            l)
]
