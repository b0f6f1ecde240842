-- ===== src/Agents/Delegations/Reads.antt =====
-- The pages and the tree of delegations that operators read: src/hive/agents/delegations.py. `before` is
-- the order of ids.
pub mod Tree
use hive_os.Base.{
  ℕ, String, Bool, Option, none, some, List, ◌&&◌, ◌||◌, ltb, ◌==◌, str_eq, take, min, max,
}
use hive_os.Table.{select}
use hive_os.Table.Order.{order_by}
use hive_os.Agents.Delegations.{failed, state_eq, Delegation, Ledger}

abbrev pub page_limit : ℕ → ℕ
page_limit limit = max 1 (min limit 500)

unfoldable pub for_parent : String → ℕ → Ledger → List Delegation
unfolding order_by
for_parent parent_run_id limit l = take (page_limit limit) (
    order_by (λ d e. ltb d.created_ts e.created_ts)
      (select (λ d. str_eq d.parent_run_id parent_run_id) l.delegations))

module _ (before : String → String → Bool) where
  unfoldable pub recent : ℕ → Ledger → List Delegation
  unfolding order_by
  recent limit l = take (page_limit limit) (
      order_by
        (λ d e.
          ltb e.created_ts d.created_ts || ((d.created_ts == e.created_ts) && before e.id d.id))
        l.delegations)

  unfoldable pub children : String → ℕ → Ledger → List Delegation
  unfolding order_by
  children id limit l = take (page_limit limit) (
      order_by
        (λ d e.
          ltb d.created_ts e.created_ts || ((d.created_ts == e.created_ts) && before d.id e.id))
        (select (λ d. str_eq d.parent_delegation_id id) l.delegations))

  -- The clause on the row before the page, if there is one.
  abbrev pub is_earlier : Option (ℕ × String) → Delegation → Bool
  is_earlier none d = Bool.true
  is_earlier (some (ts, id)) d = ltb d.updated_ts ts || ((d.updated_ts == ts) && before d.id id)

  unfoldable pub failed_page : ℕ → Option (ℕ × String) → Ledger → List Delegation
  unfolding order_by
  failed_page limit last l = take (page_limit limit) (
      order_by
        (λ d e.
          ltb e.updated_ts d.updated_ts || ((d.updated_ts == e.updated_ts) && before e.id d.id))
        (select (λ d. state_eq d.state failed && is_earlier last d) l.delegations))
