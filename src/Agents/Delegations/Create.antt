-- ===== src/Agents/Delegations/Create.antt =====
-- `create`: src/hive/agents/delegations.py. The uuids of the row and of its capability are arguments.
use hive_os.Base.{
  ℕ, ◌+◌, ◌-◌, String, Bool, not, none, some, List, [], ◌∷◌, ◌++◌, ◌&&◌, ◌||◌, leb, ltb, ◌==◌,
  if◌then◌else◌, str_eq, min, max, length,
}
use hive_os.Table.{count_where, first_where}
use hive_os.Agents.Delegations.{
  queued, running, state_eq, issued, Delegation, Ledger, Runtime, value_error, runtime_error,
  integrity_error, Result, returned, raised, has_id, in_time, update, event, is_in,
}
use hive_os.Agents.Delegations.Profiles.{SpecialistProfile, specialist_profile}

-- What the two branches of `create` decide.
pub record Plan : Type 0 where
  pub depth : ℕ
  pub max_depth : ℕ
  pub max_children : ℕ
  pub max_attempts : ℕ
  pub root : String
  pub target : String
  pub tools : List String
  pub turns : ℕ
  pub tool_calls : ℕ
  pub seconds : ℕ
  pub branch_turns : ℕ
  pub branch_tool_calls : ℕ
  pub branch_seconds : ℕ
  pub reserved_turns : ℕ
  pub reserved_tool_calls : ℕ
  pub reserved_seconds : ℕ
  pub active_children : ℕ

unfoldable pub root_plan : Runtime → String → SpecialistProfile → Result Plan
root_plan self id profile =
    if ltb 0 profile.max_delegation_depth && str_eq self.machine_identity ""
    then raised runtime_error
    else returned (record {
      depth = 0;
      max_depth = profile.max_delegation_depth;
      max_children = profile.max_children;
      max_attempts = profile.max_attempts;
      root = id;
      target = if ltb 0 profile.max_delegation_depth then self.machine_identity else "";
      tools = profile.allowed_tools;
      turns = profile.max_worker_turns;
      tool_calls = profile.max_worker_tool_calls;
      seconds = profile.max_worker_seconds;
      branch_turns = max profile.max_branch_turns profile.max_worker_turns;
      branch_tool_calls = max profile.max_branch_tool_calls profile.max_worker_tool_calls;
      branch_seconds = max profile.max_branch_seconds profile.max_worker_seconds;
      reserved_turns = profile.max_worker_turns;
      reserved_tool_calls = profile.max_worker_tool_calls;
      reserved_seconds = profile.max_worker_seconds;
      active_children = profile.max_active_children;
    })

-- sorted(tools & allowed), of a sorted list
unfoldable pub inherited : List String → List String → List String
unfolding is_in
inherited [] allowed = []
inherited (t ∷ ts) allowed =
    let rest = inherited ts allowed in if is_in t allowed then t ∷ rest else rest

abbrev pub is_local : Runtime → Delegation → Bool
is_local self d =
    str_eq d.target_machine_id self.machine_identity
    && (str_eq d.owner_machine_id self.machine_identity
        && str_eq d.owner_instance_id self.owner_instance_id)

abbrev pub own_root : Delegation → String
own_root parent =
    if str_eq parent.root_delegation_id "" then parent.id else parent.root_delegation_id

-- The allowances that the root has left for a child.
unfoldable pub child_plan :
    Runtime → SpecialistProfile → Delegation → Delegation → List String → Result Plan
child_plan self profile parent root tools =
    let turns = min profile.max_worker_turns (root.branch_max_turns - root.branch_reserved_turns) in
    let calls =
      min profile.max_worker_tool_calls
        (root.branch_max_tool_calls - root.branch_reserved_tool_calls) in
    let secs =
      min profile.max_worker_seconds (root.branch_max_seconds - root.branch_reserved_seconds) in
    if ltb (min turns (min calls secs)) 1
    then raised value_error
    else returned (record {
      depth = parent.depth + 1;
      max_depth = parent.max_depth;
      max_children = 0;
      max_attempts = min profile.max_attempts parent.max_attempts;
      root = own_root parent;
      target = self.machine_identity;
      tools = tools;
      turns = turns;
      tool_calls = calls;
      seconds = secs;
      branch_turns = 0;
      branch_tool_calls = 0;
      branch_seconds = 0;
      reserved_turns = 0;
      reserved_tool_calls = 0;
      reserved_seconds = 0;
      active_children = 0;
    })

abbrev pub is_child_of : String → Delegation → Bool
is_child_of id d = str_eq d.parent_delegation_id id

module _ (casefold : String → String) where
  -- The checks on the parent, in the order of the source. A grant whose deadline has passed is written
  -- as expired before the exception, and the rollback takes that back.
  unfoldable pub nested_plan : ℕ → Runtime → SpecialistProfile → String → Ledger → Result Plan
  unfolding child_plan inherited
  nested_plan now self profile parent_id l =
      if str_eq self.machine_identity ""
      then raised runtime_error
      else elim (first_where (has_id parent_id) l.delegations) [
        | none ↦ raised value_error
        | some parent ↦
            if not (state_eq parent.state running) || not (in_time now parent)
            then raised value_error
            else if not (is_local self parent)
            then raised value_error
            else elim (specialist_profile casefold parent.role) [
              | none ↦ raised value_error
              | some parent_profile ↦
                  if not (is_in profile.name parent_profile.allowed_child_roles)
                  then raised value_error
                  else if ltb parent.max_depth (parent.depth + 1)
                  then raised value_error
                  else if leb parent.max_children
                      (count_where (is_child_of parent_id) l.delegations)
                  then raised value_error
                  else elim (first_where (has_id (own_root parent)) l.delegations) [
                    | none ↦ raised value_error
                    | some root ↦
                        let tools = inherited parent.granted_tools profile.allowed_tools in
                        if length tools == 0
                        then raised value_error
                        else child_plan self profile parent root tools
                  ]
            ]
      ]

  abbrev pub plan_of : ℕ → Runtime → SpecialistProfile → String → String → Ledger → Result Plan
  plan_of now self profile id parent_id l =
      if str_eq parent_id ""
      then root_plan self id profile
      else nested_plan now self profile parent_id l

-- The INSERT, with the capability that is issued in the same transaction.
unfoldable pub new_row :
    ℕ → String → String → String → String → String → SpecialistProfile → Plan → Delegation
new_row now id capability parent_run child_run parent_id profile p = record {
  id = id;
  parent_run_id = parent_run;
  child_run_id = child_run;
  role = profile.name;
  state = queued;
  attempts = 0;
  max_attempts = p.max_attempts;
  created_ts = now;
  updated_ts = now;
  safe_summary = "";
  owner_host = "";
  owner_pid = 0;
  owner_machine_id = "";
  owner_instance_id = "";
  parent_delegation_id = parent_id;
  root_delegation_id = p.root;
  depth = p.depth;
  max_depth = p.max_depth;
  max_children = p.max_children;
  target_machine_id = p.target;
  granted_tools = p.tools;
  max_worker_turns = p.turns;
  max_worker_tool_calls = p.tool_calls;
  max_worker_seconds = p.seconds;
  branch_max_turns = p.branch_turns;
  branch_reserved_turns = p.reserved_turns;
  branch_max_tool_calls = p.branch_tool_calls;
  branch_reserved_tool_calls = p.reserved_tool_calls;
  branch_max_seconds = p.branch_seconds;
  branch_reserved_seconds = p.reserved_seconds;
  max_active_children = p.active_children;
  capability_id = capability;
  capability_state = issued;
  capability_deadline_ts = 0;
}

-- UPDATE … SET branch_reserved_…=branch_reserved_…+? WHERE id=?, for a child.
unfoldable pub reserve : String → Plan → Ledger → Ledger
unfolding update
reserve parent_id p l =
    if str_eq parent_id ""
    then l
    else update (has_id p.root)
        (λ d. record d {
          branch_reserved_turns = d.branch_reserved_turns + p.turns;
          branch_reserved_tool_calls = d.branch_reserved_tool_calls + p.tool_calls;
          branch_reserved_seconds = d.branch_reserved_seconds + p.seconds;
        })
        l

unfoldable pub insert : ℕ → Delegation → Ledger → Ledger
unfolding event
insert now d l =
    event now d.id "queued"
      (event now d.id "grant.issued" (record l { delegations = l.delegations ++ d ∷ [] }))

module _ (casefold : String → String) where
  -- The ledger after the transaction; an exception leaves it as it was.
  unfoldable pub create :
      ℕ
      → Runtime
      → String
      → String
      → String
      → String
      → String
      → String
      → Ledger
      → Ledger × Result Delegation
  unfolding nested_plan root_plan new_row reserve insert
  create now self id capability parent_run child_run role parent_id l =
      elim (specialist_profile casefold role) [
        | none ↦ (l, raised value_error)
        | some profile ↦ elim (plan_of casefold now self profile id parent_id l) [
          | raised e ↦ (l, raised e)
          | returned p ↦
              if ltb 0 (count_where (has_id id) l.delegations)
              then (l, raised integrity_error)
              else (let d = new_row now id capability parent_run child_run parent_id profile p in
                  (insert now d (reserve parent_id p l), returned d))
        ]
      ]
