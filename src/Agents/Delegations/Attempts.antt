-- ===== src/Agents/Delegations/Attempts.antt =====
-- The calls on a claimed delegation, and the recovery of interrupted ones:
-- src/hive/agents/delegations.py. A summary is already redacted and cut.
use hive_os.Base.{
  ℕ, ◌+◌, String, Bool, true, false, not, Option, none, some, List, [], ◌∷◌, ◌&&◌, ltb, ◌==◌,
  if◌then◌else◌, str_eq,
}
use hive_os.Table.{select, count_where, first_where, update_where, delete_where}
use hive_os.Agents.Delegations.{
  State, queued, running, review_required, completed, failed, cancelled, state_eq, closed, is_open,
  Delegation, Lease, Owner, Ledger, Runtime, has_id, update, event, revoke_descendant_grants,
  grant_is_active, ancestors_authorized,
}
use hive_os.Agents.Delegations.Claim.{is_lease}

unfoldable pub close_resource_lease : ℕ → String → ℕ → State → Ledger → Ledger
close_resource_lease now id attempt outcome l = record l {
  leases =
      update_where (λ k. is_lease id attempt k && is_open k.state)
        (λ k. record k { state = closed outcome; closed_ts = now }) l.leases;
}

abbrev pub holds : String → ℕ → Delegation → Bool
holds id attempt d = has_id id d && (state_eq d.state running && (d.attempts == attempt))

unfoldable pub release : ℕ → State → String → Delegation → Delegation
release now outcome summary d = record d {
  state = outcome;
  updated_ts = now;
  safe_summary = summary;
  owner_host = "";
  owner_pid = 0;
  owner_machine_id = "";
  owner_instance_id = "";
}

unfoldable pub state_name : State → String
state_name queued = "queued"
state_name running = "running"
state_name review_required = "review_required"
state_name completed = "completed"
state_name failed = "failed"
state_name cancelled = "cancelled"

-- What `finish` and `cancel` share: the UPDATE, and the writes when it changed a row.
unfoldable pub settle : ℕ → String → ℕ → State → String → Ledger → Ledger × Bool
unfolding update release close_resource_lease revoke_descendant_grants event
settle now id attempt outcome summary l =
    let settled = update (holds id attempt) (release now outcome summary) l in
    if ltb 0 (count_where (holds id attempt) l.delegations)
    then (
      event now id (state_name outcome) (
          revoke_descendant_grants now false id
            (close_resource_lease now id attempt outcome settled)),
      count_where (holds id attempt) l.delegations == 1,
    )
    else (settled, false)

abbrev pub outcome_of : Bool → Bool → State
outcome_of success require_review =
    if success && require_review then review_required else if success then completed else failed

unfoldable pub finish : ℕ → String → ℕ → Bool → Bool → String → Ledger → Ledger × Bool
unfolding settle
finish now id attempt success require_review summary l =
    settle now id attempt (outcome_of success require_review) summary l

unfoldable pub cancel : ℕ → String → ℕ → String → Ledger → Ledger × Bool
unfolding settle
cancel now id attempt summary l = settle now id attempt cancelled summary l

unfoldable pub revoke : ℕ → Runtime → String → ℕ → Ledger → Ledger × Bool
unfolding revoke_descendant_grants
revoke now self id attempt l = elim (first_where (holds id attempt) l.delegations) [
  | none ↦ (l, false)
  | some d ↦
      if str_eq d.owner_machine_id self.machine_identity
        && str_eq d.owner_instance_id self.owner_instance_id
      then (revoke_descendant_grants now true id l, true)
      else (l, false)
]

abbrev pub matches : String → String → ℕ → Delegation → Bool
matches capability role attempt d =
    str_eq d.role role
    && (state_eq d.state running && ((d.attempts == attempt) && str_eq d.capability_id capability))

unfoldable pub attempt_authorized : ℕ → String → String → String → ℕ → Ledger → Ledger × Bool
unfolding grant_is_active ancestors_authorized
attempt_authorized now id capability role attempt l = elim (first_where (has_id id) l.delegations) [
  | none ↦ (l, false)
  | some d ↦
      if not (matches capability role attempt d)
      then (l, false)
      else elim (grant_is_active now d l).1 [
        | false ↦ ((grant_is_active now d l).0, false)
        | true ↦ ancestors_authorized now id (grant_is_active now d l).0
      ]
]

unfoldable pub authorize_attempt : ℕ → String → String → String → ℕ → Ledger → Ledger × Bool
unfolding attempt_authorized event
authorize_attempt now id capability role attempt l =
    let checked = attempt_authorized now id capability role attempt l in
    if checked.1 then checked else (event now id "grant.denied" checked.0, false)

-- `_consume_resource` for the columns that `room` and `spend` read.
unfoldable pub consume :
    (Lease → Bool)
    → (Lease → Lease)
    → String
    → ℕ
    → String
    → String
    → String
    → ℕ
    → Ledger
    → Ledger × Bool
unfolding attempt_authorized event
consume room spend name now id capability role attempt l =
    let checked = attempt_authorized now id capability role attempt l in
    let hit = λ (k : Lease). is_lease id attempt k && (is_open k.state && room k) in
    if not checked.1
    then (event now id "lease.denied" checked.0, false)
    else if not (count_where hit checked.0.leases == 1)
    then (
      event now id "lease.denied"
          (record checked.0 { leases = update_where hit spend checked.0.leases }),
      false,
    )
    else (
      event now id name (record checked.0 { leases = update_where hit spend checked.0.leases }),
      true,
    )

unfoldable pub consume_model_call : ℕ → String → String → String → ℕ → Ledger → Ledger × Bool
unfolding consume
consume_model_call now id capability role attempt l =
    consume (λ k. ltb k.model_calls_used k.max_model_calls)
      (λ k. record k { model_calls_used = k.model_calls_used + 1 }) "lease.model_consumed" now id
      capability role attempt l

unfoldable pub consume_tool_call : ℕ → String → String → String → ℕ → Ledger → Ledger × Bool
unfolding consume
consume_tool_call now id capability role attempt l =
    consume (λ k. ltb k.tool_calls_used k.max_tool_calls)
      (λ k. record k { tool_calls_used = k.tool_calls_used + 1 }) "lease.tool_consumed" now id
      capability role attempt l

abbrev pub is_process : Runtime → ℕ → Owner → Bool
is_process self pid o = str_eq o.owner_machine_id self.machine_identity && (o.owner_pid == pid)

-- ORDER BY rowid DESC LIMIT 1
last_instance : (Owner → Bool) → List Owner → Option String
last_instance p [] = none
last_instance p (o ∷ os) =
    let rest = last_instance p os in
    elim rest [ some i ↦ some i | none ↦ (if p o then some o.owner_instance_id else none) ]

unfoldable pub active_owner_instance : Runtime → ℕ → Ledger → Option String
unfolding last_instance
active_owner_instance self pid l = last_instance (is_process self pid) l.owners

-- The attempt's process is gone, or its pid belongs to a later owner.
module _ (process_is_alive : ℕ → Bool) where
  unfoldable pub is_interrupted : Runtime → Delegation → Ledger → Bool
  unfolding active_owner_instance
  is_interrupted self d l =
      not (str_eq d.owner_instance_id self.owner_instance_id)
      && (if process_is_alive d.owner_pid
          then elim (active_owner_instance self d.owner_pid l) [
            | none ↦ false
            | some i ↦ not (str_eq i d.owner_instance_id)
          ]
          else true)

  abbrev pub same_claim : Runtime → Delegation → Delegation → Bool
  same_claim self d x =
      has_id d.id x
      && (state_eq x.state running
          && ((x.attempts == d.attempts)
              && (str_eq x.owner_machine_id self.machine_identity
                  && ((x.owner_pid == d.owner_pid)
                      && str_eq x.owner_instance_id d.owner_instance_id))))

  unfoldable pub recover_one : ℕ → Runtime → Delegation → Ledger × ℕ → Ledger × ℕ
  unfolding is_interrupted update release close_resource_lease event
  recover_one now self d (l, n) =
      if is_interrupted self d l
      then (let settled =
            update (same_claim self d)
              (release now failed "worker interrupted; recovery requires replanning") l in
          if ltb 0 (count_where (same_claim self d) l.delegations)
          then (
            event now d.id "interrupted" (close_resource_lease now d.id d.attempts failed settled),
            n + 1,
          )
          else (settled, n))
      else (l, n)

  unfoldable pub recover_each : ℕ → Runtime → List Delegation → Ledger × ℕ → Ledger × ℕ
  unfolding recover_one
  recover_each now self [] acc = acc
  recover_each now self (d ∷ ds) acc = recover_each now self ds (recover_one now self d acc)

  unfoldable pub recover_interrupted : ℕ → Runtime → Ledger → Ledger × ℕ
  unfolding recover_each
  recover_interrupted now self l =
      if str_eq self.machine_identity ""
      then (l, 0)
      else recover_each now self
          (select
            (λ d.
              state_eq d.state running
              && (str_eq d.owner_machine_id self.machine_identity
                  && not (str_eq d.owner_instance_id "")))
            l.delegations)
          (l, 0)

-- `close`
unfoldable pub close : Runtime → Ledger → Ledger
close self l = record l {
  owners = delete_where (λ o. str_eq o.owner_instance_id self.owner_instance_id) l.owners;
}

-- `resource_snapshot`: the lease of the row's attempt, if it has one.
unfoldable pub resource_snapshot : String → Ledger → Option Lease
resource_snapshot id l = elim (first_where (has_id id) l.delegations) [
  | none ↦ none
  | some d ↦ first_where (is_lease id d.attempts) l.leases
]
