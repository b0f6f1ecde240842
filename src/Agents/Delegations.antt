-- ===== src/Agents/Delegations.antt =====
-- The ledger of delegated specialist work: src/hive/agents/delegations.py. This file has its tables,
-- the events, and the capabilities along a branch; the operations are in the modules below.
-- Timestamps are whole milliseconds; the redacted data of an event is not kept.
pub mod Profiles
pub mod Create
pub mod Claim
pub mod Attempts
pub mod Histories
pub mod Ancestors
pub mod Changes
pub mod Branches
pub mod Bounds
pub mod Lifecycle
pub mod Reads
use hive_os.Base.{
  ℕ, zero, suc, ◌+◌, String, Bool, true, false, not, Option, none, some, List, [], ◌∷◌, ◌++◌, ◌&&◌,
  ◌||◌, leb, ltb, ◌==◌, if◌then◌else◌, str_eq, length, get_or,
}
use hive_os.Table.{count_where, first_where, update_where}

pub data State : Type 0 where
  queued running review_required completed failed cancelled : State

abbrev pub state_eq : State → State → Bool
state_eq queued queued = true
state_eq running running = true
state_eq review_required review_required = true
state_eq completed completed = true
state_eq failed failed = true
state_eq cancelled cancelled = true
state_eq _ _ = false

-- capability_state: `absent` is the empty text.
pub data Capability : Type 0 where
  absent issued active expired revoked : Capability

abbrev pub is_active : Capability → Bool
is_active active = true
is_active _ = false

-- capability_state IN ('issued', 'active')
abbrev pub is_usable : Capability → Bool
is_usable issued = true
is_usable active = true
is_usable _ = false

-- A row of hive_delegations.
pub record Delegation : Type 0 where
  pub id : String
  pub parent_run_id : String
  pub child_run_id : String
  pub role : String
  pub state : State
  pub attempts : ℕ
  pub max_attempts : ℕ
  pub created_ts : ℕ
  pub updated_ts : ℕ
  pub safe_summary : String
  pub owner_host : String
  pub owner_pid : ℕ
  pub owner_machine_id : String
  pub owner_instance_id : String
  pub parent_delegation_id : String
  pub root_delegation_id : String
  pub depth : ℕ
  pub max_depth : ℕ
  pub max_children : ℕ
  pub target_machine_id : String
  pub granted_tools : List String
  pub max_worker_turns : ℕ
  pub max_worker_tool_calls : ℕ
  pub max_worker_seconds : ℕ
  pub branch_max_turns : ℕ
  pub branch_reserved_turns : ℕ
  pub branch_max_tool_calls : ℕ
  pub branch_reserved_tool_calls : ℕ
  pub branch_max_seconds : ℕ
  pub branch_reserved_seconds : ℕ
  pub max_active_children : ℕ
  pub capability_id : String
  pub capability_state : Capability
  pub capability_deadline_ts : ℕ

-- The state of a lease: open, or closed with the outcome of its attempt.
pub data LeaseState : Type 0 where
  open_lease : LeaseState
  closed : State → LeaseState

abbrev pub is_open : LeaseState → Bool
is_open open_lease = true
is_open (closed outcome) = false

-- A row of hive_delegation_resource_leases.
pub record Lease : Type 0 where
  pub delegation_id : String
  pub attempt : ℕ
  pub state : LeaseState
  pub max_model_calls : ℕ
  pub model_calls_used : ℕ
  pub max_tool_calls : ℕ
  pub tool_calls_used : ℕ
  pub started_ts : ℕ
  pub closed_ts : ℕ

-- A row of hive_delegation_events.
pub record Event : Type 0 where
  pub delegation_id : String
  pub ts : ℕ
  pub event_type : String

-- A row of hive_delegation_owners.
pub record Owner : Type 0 where
  pub owner_instance_id : String
  pub owner_machine_id : String
  pub owner_host : String
  pub owner_pid : ℕ
  pub registered_ts : ℕ

pub record Ledger : Type 0 where
  pub delegations : List Delegation
  pub leases : List Lease
  pub events : List Event
  pub owners : List Owner

-- The identity of a running ledger object.
pub record Runtime : Type 0 where
  pub machine_identity : String
  pub hostname : String
  pub process_id : ℕ
  pub owner_instance_id : String

pub data Error : Type 0 where
  value_error runtime_error integrity_error : Error

pub data Result {ℓ} (A : Type ℓ) : Type ℓ where
  returned : A → Result A
  raised : Error → Result A

unfoldable pub empty_ledger : Ledger
empty_ledger = record { delegations = []; leases = []; events = []; owners = [] }

-- The INSERT of `__init__`.
unfoldable pub register_owner : ℕ → Runtime → Ledger → Ledger
register_owner now self l = record l {
  owners =
      l.owners
      ++ (record {
        owner_instance_id = self.owner_instance_id;
        owner_machine_id = self.machine_identity;
        owner_host = self.hostname;
        owner_pid = self.process_id;
        registered_ts = now;
      })
        ∷ [];
}

abbrev pub has_id : String → Delegation → Bool
has_id id d = str_eq d.id id

unfoldable pub get : String → Ledger → Option Delegation
get id l = first_where (has_id id) l.delegations

unfoldable pub event : ℕ → String → String → Ledger → Ledger
event now delegation_id event_type l = record l {
  events =
      l.events
      ++ (record { delegation_id = delegation_id; ts = now; event_type = event_type }) ∷ [];
}

-- UPDATE hive_delegations SET f WHERE p
unfoldable pub update : (Delegation → Bool) → (Delegation → Delegation) → Ledger → Ledger
update p f l = record l { delegations = update_where p f l.delegations }

-- The recursive query of a subtree, upwards: the parents of a row lead to `root`. The rows of a table
-- bound the way.
unfoldable pub descends : ℕ → List Delegation → String → Delegation → Bool
descends zero rows root d = false
descends (suc left) rows root d =
    if str_eq d.parent_delegation_id root
    then true
    else elim (first_where (has_id d.parent_delegation_id) rows) [
      | none ↦ false
      | some parent ↦ descends left rows root parent
    ]

abbrev pub with_capability : Capability → Delegation → Delegation
with_capability c d = record d { capability_state = c }

unfoldable pub revoke_descendant_grants : ℕ → Bool → String → Ledger → Ledger
unfolding descends update event
revoke_descendant_grants now include_root id l =
    let below =
      update
        (λ d. is_usable d.capability_state && descends (length l.delegations) l.delegations id d)
        (with_capability revoked) l in
    let whole : Ledger =
      if include_root
      then update (λ d. has_id id d && is_usable d.capability_state) (with_capability revoked) below
      else below in
    event now id "grant.revoked" whole

abbrev pub in_time : ℕ → Delegation → Bool
in_time now d = is_active d.capability_state && leb now d.capability_deadline_ts

-- The writes of `_grant_is_active` on a grant whose deadline has passed.
unfoldable pub expire : ℕ → Delegation → Ledger → Ledger
unfolding update event revoke_descendant_grants
expire now d l = revoke_descendant_grants now false d.id (
    event now d.id "grant.expired"
      (update (λ x. has_id d.id x && is_active x.capability_state) (with_capability expired) l))

unfoldable pub grant_is_active : ℕ → Delegation → Ledger → Ledger × Bool
unfolding expire
grant_is_active now d l =
    if not (is_active d.capability_state)
    then (l, false)
    else if leb now d.capability_deadline_ts
    then (l, true)
    else (expire now d l, false)

unfoldable pub is_in : String → List String → Bool
is_in x [] = false
is_in x (y ∷ ys) = str_eq x y || is_in x ys

-- The loop of `_ancestors_authorized` at `parent_id`, with `left` rounds to go; none when they run out.
unfoldable pub climb : ℕ → ℕ → List String → String → Ledger → Option (Ledger × Bool)
unfolding is_in grant_is_active
climb zero now seen parent_id l = none
climb (suc left) now seen parent_id l =
    if str_eq parent_id ""
    then some (l, true)
    else if is_in parent_id seen
    then some (l, false)
    else elim (first_where (has_id parent_id) l.delegations) [
      | none ↦ some (l, false)
      | some d ↦ elim (not (state_eq d.state running)) [
        | true ↦ some (l, false)
        | false ↦
            let checked = grant_is_active now d l in
            elim checked.1 [
              | false ↦ some (checked.0, false)
              | true ↦ climb left now (parent_id ∷ seen) d.parent_delegation_id checked.0
            ]
      ]
    ]

unfoldable pub parent_of : String → Ledger → String
parent_of id l = elim (first_where (has_id id) l.delegations) [
  | none ↦ ""
  | some d ↦ d.parent_delegation_id
]

unfoldable pub ancestors_authorized : ℕ → String → Ledger → Ledger × Bool
unfolding climb parent_of
ancestors_authorized now id l =
    get_or (l, false) (climb (suc (suc (length l.delegations))) now (id ∷ []) (parent_of id l) l)
