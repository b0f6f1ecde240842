-- ===== src/Agents/Delegations/Claim.antt =====
-- `claim`: src/hive/agents/delegations.py. Every refusal rolls back, expiries along the way included.
use hive_os.Base.{
  ℕ, ◌+◌, String, Bool, true, false, not, Option, none, some, [], ◌∷◌, ◌++◌, ◌&&◌, ◌||◌, leb, ltb,
  ◌==◌, if◌then◌else◌, str_eq, max,
}
use hive_os.Table.{count_where, first_where}
use hive_os.Autonomy.Tasks.{seconds}
use hive_os.Agents.Delegations.{
  queued, running, state_eq, active, is_usable, open_lease, Delegation, Lease, Ledger, Runtime,
  integrity_error, Result, returned, raised, has_id, update, event, ancestors_authorized,
}
use hive_os.Agents.Delegations.Create.{is_local}

abbrev pub target_ok : Runtime → Delegation → Bool
target_ok self d =
    str_eq d.target_machine_id ""
    || (not (str_eq self.machine_identity "") && str_eq d.target_machine_id self.machine_identity)

unfoldable pub parent_ok : Runtime → Delegation → Ledger → Bool
parent_ok self d l =
    if str_eq d.parent_delegation_id ""
    then true
    else elim (first_where (has_id d.parent_delegation_id) l.delegations) [
      | none ↦ false
      | some parent ↦ state_eq parent.state running && is_local self parent
    ]

-- root_delegation_id=? AND parent_delegation_id<>'' AND state='running'
abbrev pub is_active_child : String → Delegation → Bool
is_active_child root d =
    str_eq d.root_delegation_id root
    && (not (str_eq d.parent_delegation_id "") && state_eq d.state running)

abbrev pub branch_root : Delegation → String
branch_root d =
    if str_eq d.root_delegation_id "" then d.parent_delegation_id else d.root_delegation_id

unfoldable pub slot_free : Delegation → Ledger → Bool
slot_free d l =
    if str_eq d.parent_delegation_id ""
    then true
    else elim (first_where (has_id (branch_root d)) l.delegations) [
      | none ↦ false
      | some root ↦
          leb 1 root.max_active_children
          && ltb (count_where (is_active_child (branch_root d)) l.delegations)
              root.max_active_children
    ]

unfoldable pub claimable : Delegation → Bool
claimable d = state_eq d.state queued && ltb d.attempts d.max_attempts

unfoldable pub start : ℕ → Runtime → Delegation → Delegation
start now self d = record d {
  state = running;
  attempts = d.attempts + 1;
  updated_ts = now;
  owner_host = self.hostname;
  owner_pid = self.process_id;
  owner_machine_id = self.machine_identity;
  owner_instance_id = self.owner_instance_id;
}

-- A coordinator's lease lasts as long as its branch.
unfoldable pub lease_seconds : Delegation → ℕ
lease_seconds d =
    if str_eq d.parent_delegation_id "" && ltb 0 d.max_depth
    then d.branch_max_seconds
    else d.max_worker_seconds

unfoldable pub activate : ℕ → ℕ → Delegation → Delegation
activate now span d = record d {
  capability_state = active;
  capability_deadline_ts = now + seconds (max 1 span);
}

abbrev pub is_lease : String → ℕ → Lease → Bool
is_lease id attempt k = str_eq k.delegation_id id && (k.attempt == attempt)

unfoldable pub new_lease : ℕ → String → ℕ → Delegation → Lease
new_lease now id attempt d = record {
  delegation_id = id;
  attempt = attempt;
  state = open_lease;
  max_model_calls = d.max_worker_turns;
  model_calls_used = 0;
  max_tool_calls = d.max_worker_tool_calls;
  tool_calls_used = 0;
  started_ts = now;
  closed_ts = 0;
}

-- The two UPDATEs of a claim on the row `d`.
unfoldable pub started : ℕ → Runtime → String → Delegation → Ledger → Ledger
unfolding update start activate lease_seconds claimable
started now self id d l =
    update (λ x. has_id id x && is_usable x.capability_state) (activate now (lease_seconds d))
      (update (λ x. has_id id x && claimable x) (start now self) l)

-- The row after the UPDATEs gives the attempt; the lease's key is new.
unfoldable pub lease_out : ℕ → String → Ledger → Ledger → Ledger × Result (Option ℕ)
unfolding event new_lease
lease_out now id before l = elim (first_where (has_id id) l.delegations) [
  | none ↦ (before, returned none)
  | some d ↦
      if ltb 0 (count_where (is_lease id d.attempts) l.leases)
      then (before, raised integrity_error)
      else (let leased : Ledger = record l {
        leases = l.leases ++ new_lease now id d.attempts d ∷ [];
      } in
          (
            event now id "grant.activated" (event now id "started" leased),
            returned (some d.attempts),
          ))
]

unfoldable pub claim : ℕ → Runtime → String → Ledger → Ledger × Result (Option ℕ)
unfolding parent_ok slot_free started lease_out claimable
claim now self id l = elim (first_where (has_id id) l.delegations) [
  | none ↦ (l, returned none)
  | some d ↦
      if not (target_ok self d)
      then (l, returned none)
      else if not (parent_ok self d l)
      then (l, returned none)
      else if not (ancestors_authorized now id l).1
      then (l, returned none)
      else if not (slot_free d l)
      then (l, returned none)
      else if not (count_where (λ x. has_id id x && claimable x) l.delegations == 1)
      then (l, returned none)
      else if not
          (count_where (λ x. has_id id x && is_usable x.capability_state) l.delegations == 1)
      then (l, returned none)
      else lease_out now id l (started now self id d l)
]
