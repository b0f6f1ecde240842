-- ===== src/Examples/Delegations.antt =====
-- The theorems on the delegation ledger, at a coordinator with one child.
use hive_os.Base.{
  ℕ, min, max, suc, ◌+◌, ◌≤◌, String, Bool, true, false, Option, none, some, List, [], ◌∷◌, ◌≡◌,
  refl, length, strip,
}
use hive_os.Table.{select, count_where, first_where, update_where}
use hive_os.Agents.Delegations.{
  Delegation, Ledger, Runtime, empty_ledger, get, climb, parent_of, ancestors_authorized, event,
  update, is_in, grant_is_active,
}
use hive_os.Agents.Delegations.Profiles.{
  specialist_profile, coordinator, leaf, read_only_tools, keeper_tools, coder_tools,
  coordinator_tools,
}
use hive_os.Agents.Delegations.Create.{
  Plan, create, root_plan, nested_plan, child_plan, inherited, new_row, reserve, insert,
}
use hive_os.Agents.Delegations.Claim.{
  claim, parent_ok, slot_free, claimable, start, lease_seconds, activate, new_lease, started,
  lease_out,
}
use hive_os.Agents.Delegations.Histories.{Op, create_op, claim_op, finish_op, apply, run}
use hive_os.Agents.Delegations.Attempts.{resource_snapshot}
use hive_os.Agents.Delegations.Reads.{children}
use hive_os.Agents.Delegations.Reads.Tree.{
  Node, node, no_more, size, visit, add_seen, build, tree, tree_bounded,
}
use hive_os.Table.Order.{insert_by, order_by}
use hive_os.Agents.Delegations.Ancestors.{ancestors_decided}
use hive_os.Agents.Delegations.Bounds.{IsBounded, leases_within_grant}
use hive_os.Agents.Delegations.Branches.{branch_never_oversubscribed}
use hive_os.Agents.Delegations.Branches.Totals.{branch_total}
use hive_os.Agents.Delegations.Lifecycle.{Later, history_refines}

abbrev same_case : String → String
same_case s = s

abbrev self : Runtime
self = record { machine_identity = "m1"; hostname = "h"; process_id = 7; owner_instance_id = "o1" }

abbrev ops : List Op
ops =
    create_op 1000 self "d1" "c1" "p" "r1" "coordinator" ""
    ∷ claim_op 2000 self "d1"
    ∷ create_op 3000 self "d2" "c2" "p" "r2" "researcher" "d1"
    ∷ []

abbrev plan : Plan
plan = record {
  depth = 0;
  max_depth = 1;
  max_children = 3;
  max_attempts = 1;
  root = "d1";
  target = "m1";
  tools = coordinator_tools;
  turns = 4;
  tool_calls = 4;
  seconds = 20;
  branch_turns = 10;
  branch_tool_calls = 10;
  branch_seconds = 110;
  reserved_turns = 4;
  reserved_tool_calls = 4;
  reserved_seconds = 20;
  active_children = 1;
}

abbrev fresh : Delegation
fresh = new_row 1000 "d1" "c1" "p" "r1" "" coordinator plan

abbrev found_row : Option Delegation → Delegation
found_row none = fresh
found_row (some d) = d

-- The root after its child has been created.
abbrev root : Delegation
root = found_row (get "d1" (run same_case empty_ledger ops))

root_found : get "d1" (run same_case empty_ledger ops) ≡ some root
unfolding run apply empty_ledger create specialist_profile coordinator leaf read_only_tools
    keeper_tools coder_tools coordinator_tools root_plan nested_plan child_plan inherited new_row
    reserve insert event update claim parent_ok slot_free claimable start lease_seconds activate
    new_lease started lease_out ancestors_authorized climb parent_of is_in grant_is_active get
    first_where count_where update_where select strip
root_found = refl

root_reserved : root.branch_reserved_turns ≡ 6
unfolding run apply empty_ledger create specialist_profile coordinator leaf read_only_tools
    keeper_tools coder_tools coordinator_tools root_plan nested_plan child_plan inherited new_row
    reserve insert event update claim parent_ok slot_free claimable start lease_seconds activate
    new_lease started lease_out ancestors_authorized climb parent_of is_in grant_is_active get
    first_where count_where update_where select strip
root_reserved = refl

root_is_own : root.root_delegation_id ≡ "d1"
unfolding run apply empty_ledger create specialist_profile coordinator leaf read_only_tools
    keeper_tools coder_tools coordinator_tools root_plan nested_plan child_plan inherited new_row
    reserve insert event update claim parent_ok slot_free claimable start lease_seconds activate
    new_lease started lease_out ancestors_authorized climb parent_of is_in grant_is_active get
    first_where count_where update_where select strip
root_is_own = refl

branch_never_oversubscribed_example :
    ((root.branch_reserved_turns
        ≡ branch_total (λ x. x.max_worker_turns) "d1" (run same_case empty_ledger ops).delegations)
      × (root.branch_reserved_turns ≤ root.branch_max_turns))
    × ((root.branch_reserved_tool_calls
          ≡ branch_total
              (λ x. x.max_worker_tool_calls)
              "d1"
              (run same_case empty_ledger ops).delegations)
        × (root.branch_reserved_tool_calls ≤ root.branch_max_tool_calls))
    × ((root.branch_reserved_seconds
          ≡ branch_total
              (λ x. x.max_worker_seconds)
              "d1"
              (run same_case empty_ledger ops).delegations)
        × (root.branch_reserved_seconds ≤ root.branch_max_seconds))
branch_never_oversubscribed_example =
    branch_never_oversubscribed same_case ops "d1" root root_found root_is_own

leases_within_grant_example : IsBounded (run same_case empty_ledger ops)
leases_within_grant_example = leases_within_grant same_case ops

history_refines_example : Later root (
    get "d1" (
      run same_case
        (run same_case empty_ledger ops)
        (finish_op 4000 "d1" 1 true false "done" ∷ [])))
history_refines_example =
    history_refines same_case (finish_op 4000 "d1" 1 true false "done" ∷ []) "d1" root
      (run same_case empty_ledger ops) root_found

ancestors_decided_example :
    climb
      (suc (suc (length (run same_case empty_ledger ops).delegations)) + 5)
      3000
      ("d2" ∷ [])
      (parent_of "d2" (run same_case empty_ledger ops))
      (run same_case empty_ledger ops)
    ≡ some (ancestors_authorized 3000 "d2" (run same_case empty_ledger ops))
ancestors_decided_example = ancestors_decided 5 3000 "d2" (run same_case empty_ledger ops)

-- Two rows that are each other's parent.
abbrev linked : String → String → Delegation
linked id parent = record fresh { id = id; parent_delegation_id = parent }

abbrev cycle : Ledger
cycle = record {
  delegations = linked "d1" "d2" ∷ linked "d2" "d1" ∷ [];
  leases = [];
  events = [];
  owners = [];
}

abbrev unordered : String → String → Bool
unordered s t = false

abbrev walked : Option (Node × (ℕ × Bool)) → Node × (ℕ × Bool)
walked none = (node fresh none no_more, (0, false))
walked (some t) = t

abbrev cycle_tree : Node × (ℕ × Bool)
cycle_tree = walked (tree unordered cycle "d1" 8 200)

cycle_walked : tree unordered cycle "d1" 8 200 ≡ some (cycle_tree.0, (2, true))
unfolding tree build visit add_seen children resource_snapshot first_where select insert_by order_by
    is_in new_row coordinator_tools read_only_tools
cycle_walked = refl

tree_bounded_example : (2 ≡ size cycle_tree.0) × (2 ≤ max 1 (min 200 500))
tree_bounded_example = tree_bounded unordered cycle "d1" 8 200 2 cycle_tree.0 true cycle_walked
