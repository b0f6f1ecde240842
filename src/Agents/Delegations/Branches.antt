-- ===== src/Agents/Delegations/Branches.antt =====
-- The budget of a branch: what its root has reserved is what its rows were given, and no more than the
-- root allows. The three budgets (turns, tool calls, seconds) are one interface with three instances.
pub mod Totals
pub mod Balances
use hive_os.Base.{
  ℕ, ◌+◌, ◌≤◌, String, Bool, true, false, some, List, [], ◌∷◌, ◌++◌, ◌≡◌, refl, sym, ap, ◌∙◌, inl,
  inr, Bool-cases, arith, str_eq, str_eq_iff, if◌then◌else◌, All, All-append, All-map,
}
use hive_os.Table.{count_where, first_where, update_where}
use hive_os.Table.Rows.{
  All-update_where, first_where-All, first_where-hit, count_where_found, count_where-append,
  count_where-update_hit, count_where-update_where, count_where_zero_All, All-unique,
  first_where_stronger,
}
use hive_os.Table.Members.{All-updated, All-pair}
use hive_os.Agents.Delegations.{Delegation, Ledger, empty_ledger, has_id, get}
use hive_os.Agents.Delegations.Changes.{
  RowStep, RootOk, ChildOk, reserve_for, Change, nothing, followed, noted, updated, spent, leased,
  rooted, nested,
}
use hive_os.Agents.Delegations.Changes.Runs.{run-Change}
use hive_os.Agents.Delegations.Histories.{Op, run}
use hive_os.Agents.Delegations.Branches.Totals.{
  Allowance, branch_total, Kept, branch_total-append, branch_total-update_where, total-new,
  total-other, count-new, turns, tool_calls, seconds,
}
use hive_os.Agents.Delegations.Branches.Balances.{Account, Balanced, Change-Balanced}

module _ (a : Allowance) where
  run-Balanced :
      (casefold : String → String) (ops : List Op)
      → Balanced a (run casefold empty_ledger ops).delegations
  unfolding empty_ledger count_where branch_total
  run-Balanced casefold ops =
      Change-Balanced a (run-Change casefold ops empty_ledger)
        (record { unique = none_twice; rooted_total = none_spent; accounts = tt })
    where
      none_twice : (id : String) → count_where (has_id id) [] ≤ 1
      none_twice id = omega arith

      none_spent : (id : String) → count_where (has_id id) [] ≡ 0 → branch_total a.worker id [] ≡ 0
      none_spent id gone = refl

module _ (a : Allowance) where
  branch_account :
      (casefold : String → String) (ops : List Op) (id : String) (d : Delegation)
      → get id (run casefold empty_ledger ops) ≡ some d
      → d.root_delegation_id ≡ id
      → (a.reserved d ≡ branch_total a.worker id (run casefold empty_ledger ops).delegations)
        × (a.reserved d ≤ a.limit d)
  unfolding get
  branch_account casefold ops id d found own =
      let here : d.id ≡ id = (str_eq_iff d.id id).0 (first_where-hit (has_id id) _ d found) in
      let acc =
        first_where-All (Account a (run casefold empty_ledger ops).delegations) (has_id id) _ d
          (run-Balanced a casefold ops).accounts found in
      rw (← here) (acc ((str_eq_iff d.root_delegation_id d.id).1 (own ∙ sym here)))

-- Whatever calls any runtimes make on an empty ledger, a root delegation has reserved exactly the sum of
-- what the delegations of its branch (itself included) may spend, and no more than the branch budget: for
-- each of the three budgets, the model turns, the tool calls and the seconds.
pub branch_never_oversubscribed :
    (casefold : String → String) (ops : List Op) (id : String) (d : Delegation)
    → get id (run casefold empty_ledger ops) ≡ some d
    → d.root_delegation_id ≡ id
    → ((d.branch_reserved_turns
          ≡ branch_total (λ x. x.max_worker_turns) id (run casefold empty_ledger ops).delegations)
        × (d.branch_reserved_turns ≤ d.branch_max_turns))
      × ((d.branch_reserved_tool_calls
            ≡ branch_total
                (λ x. x.max_worker_tool_calls)
                id
                (run casefold empty_ledger ops).delegations)
          × (d.branch_reserved_tool_calls ≤ d.branch_max_tool_calls))
      × ((d.branch_reserved_seconds
            ≡ branch_total
                (λ x. x.max_worker_seconds)
                id
                (run casefold empty_ledger ops).delegations)
          × (d.branch_reserved_seconds ≤ d.branch_max_seconds))
branch_never_oversubscribed casefold ops id d found own = (
  branch_account turns casefold ops id d found own,
  branch_account tool_calls casefold ops id d found own,
  branch_account seconds casefold ops id d found own,
)
