-- ===== src/Agents/Delegations/Changes.antt =====
-- What a call may do to the ledger: the step relation that every call refines.
pub mod Calls
pub mod Endings
pub mod Starts
pub mod Creates
pub mod Runs
use hive_os.Base.{
  ℕ, suc, ◌+◌, ◌≤◌, String, Bool, true, false, List, [], ◌∷◌, ◌++◌, ◌≡◌, refl, some, str_eq,
  if◌then◌else◌,
}
use hive_os.Table.{count_where, first_where, update_where}
use hive_os.Agents.Delegations.{State, Delegation, Lease, Event, Owner, Ledger, has_id}
use hive_os.Agents.Delegations.State.{
  queued, running, review_required, completed, failed, cancelled,
}

-- The life of a delegation: queued, then running, then one of the four ends.
pub data Moves : State → State → Type 0 where
  starts : Moves queued running
  for_review : Moves running review_required
  completes : Moves running completed
  fails : Moves running failed
  is_cancelled : Moves running cancelled

pub data Reaches : State → State → Type 0 where
  stays : {s : State} → Reaches s s
  then_moves : {s t u : State} → Reaches s t → Moves t u → Reaches s u

-- What an UPDATE keeps of a row, and how it may move its state and its attempts.
pub record RowStep (d e : Delegation) : Type 0 where
  pub same_id : e.id ≡ d.id
  pub same_root : e.root_delegation_id ≡ d.root_delegation_id
  pub same_budget : e.max_attempts ≡ d.max_attempts
  pub same_turns : e.max_worker_turns ≡ d.max_worker_turns
  pub same_calls : e.max_worker_tool_calls ≡ d.max_worker_tool_calls
  pub same_seconds : e.max_worker_seconds ≡ d.max_worker_seconds
  pub same_branch_turns : e.branch_max_turns ≡ d.branch_max_turns
  pub same_branch_calls : e.branch_max_tool_calls ≡ d.branch_max_tool_calls
  pub same_branch_seconds : e.branch_max_seconds ≡ d.branch_max_seconds
  pub same_reserved_turns : e.branch_reserved_turns ≡ d.branch_reserved_turns
  pub same_reserved_calls : e.branch_reserved_tool_calls ≡ d.branch_reserved_tool_calls
  pub same_reserved_seconds : e.branch_reserved_seconds ≡ d.branch_reserved_seconds
  pub moves : Reaches d.state e.state
  pub attempts_rise : d.attempts ≤ e.attempts
  pub in_budget : d.attempts ≤ d.max_attempts → e.attempts ≤ e.max_attempts

pub record LeaseStep (k m : Lease) : Type 0 where
  pub model_calls : k.model_calls_used ≤ k.max_model_calls → m.model_calls_used ≤ m.max_model_calls
  pub tool_calls : k.tool_calls_used ≤ k.max_tool_calls → m.tool_calls_used ≤ m.max_tool_calls

-- The reservation for the child `d` on its root.
abbrev pub reserve_for : Delegation → Delegation → Delegation
reserve_for d r = record r {
  branch_reserved_turns = r.branch_reserved_turns + d.max_worker_turns;
  branch_reserved_tool_calls = r.branch_reserved_tool_calls + d.max_worker_tool_calls;
  branch_reserved_seconds = r.branch_reserved_seconds + d.max_worker_seconds;
}

pub record RootOk (d : Delegation) : Type 0 where
  pub own_root : d.root_delegation_id ≡ d.id
  pub turns_reserved : d.branch_reserved_turns ≡ d.max_worker_turns
  pub calls_reserved : d.branch_reserved_tool_calls ≡ d.max_worker_tool_calls
  pub seconds_reserved : d.branch_reserved_seconds ≡ d.max_worker_seconds
  pub turns_fit : d.max_worker_turns ≤ d.branch_max_turns
  pub calls_fit : d.max_worker_tool_calls ≤ d.branch_max_tool_calls
  pub seconds_fit : d.max_worker_seconds ≤ d.branch_max_seconds

-- The child `d` takes no more than its root `r` has left.
pub record ChildOk (r d : Delegation) : Type 0 where
  pub turns_left : r.branch_reserved_turns + d.max_worker_turns ≤ r.branch_max_turns
  pub calls_left : r.branch_reserved_tool_calls + d.max_worker_tool_calls ≤ r.branch_max_tool_calls
  pub seconds_left : r.branch_reserved_seconds + d.max_worker_seconds ≤ r.branch_max_seconds
  pub none_reserved :
      (d.branch_reserved_turns ≡ 0)
      × (d.branch_reserved_tool_calls ≡ 0)
      × (d.branch_reserved_seconds ≡ 0)

pub data Change : Ledger → Ledger → Type 0 where
  nothing : {l : Ledger} → Change l l
  followed : {a b c : Ledger} → Change a b → Change b c → Change a c
  noted :
      (l : Ledger) (es : List Event) (os : List Owner)
      → Change l (record l { events = es; owners = os })
  updated :
      (l : Ledger) (p : Delegation → Bool) (f : Delegation → Delegation)
      → ((d : Delegation) → p d ≡ true → RowStep d (f d))
      → Change l (record l { delegations = update_where p f l.delegations })
  spent :
      (l : Ledger) (p : Lease → Bool) (f : Lease → Lease)
      → ((k : Lease) → p k ≡ true → LeaseStep k (f k))
      → Change l (record l { leases = update_where p f l.leases })
  leased :
      (l : Ledger) (k : Lease)
      → k.model_calls_used ≡ 0
      → k.tool_calls_used ≡ 0
      → Change l (record l { leases = l.leases ++ k ∷ [] })
  rooted :
      (l : Ledger) (d : Delegation)
      → count_where (has_id d.id) l.delegations ≡ 0
      → d.attempts ≡ 0
      → RootOk d
      → Change l (record l { delegations = l.delegations ++ d ∷ [] })
  nested :
      (l : Ledger) (r d : Delegation)
      → count_where (has_id d.id) l.delegations ≡ 0
      → d.attempts ≡ 0
      → first_where (has_id d.root_delegation_id) l.delegations ≡ some r
      → ChildOk r d
      → Change l (record l {
        delegations =
            update_where (has_id d.root_delegation_id) (reserve_for d) l.delegations ++ d ∷ [];
      })
