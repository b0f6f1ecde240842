-- ===== src/Core/SafetyState/Decisions.antt =====
-- One decision per approval, and latches that stay.
use hive_os.Base.{
  ℕ, ◌≤◌, String, Bool, Option, none, some, List, [], ◌∷◌, ◌++◌, ◌≡◌, inl, inr, Option-cases,
  str_eq_iff, arith,
}
use hive_os.Dict.{get, get-put}
use hive_os.Table.{count_where, first_where, delete_where}
use hive_os.Table.Rows.{
  count_where-delete_where, first_where-none, count_where-none, count_where_found,
  first_where-append_new,
}
use hive_os.Core.SafetyState.{
  Approval, Latch, SafetyStateStore, has_id, record_approval, load_pending, consume_approval,
  delete_approval, set_cooldown, engage_latch,
}

-- Of two deciders of one approval, the second gets nothing.
pub consumed_once :
    (approval_id : String) (s : SafetyStateStore)
    → (consume_approval approval_id (consume_approval approval_id s).0).1 ≡ none
unfolding consume_approval
consumed_once approval_id s =
    elim (Option-cases (first_where (has_id approval_id) s.approvals_pending)) [
      | inl nothing ↦ ground arith
      | inr (a, found) ↦
          let gone : first_where (has_id approval_id)
                (delete_where (has_id approval_id) s.approvals_pending)
              ≡ none =
            first_where-none (has_id approval_id)
              (delete_where (has_id approval_id) s.approvals_pending)
              (count_where-delete_where (has_id approval_id) s.approvals_pending) in
          ground arith
    ]

-- The calls that a running system makes on the store.
pub data Op : Type 0 where
  record_op : Approval → Op
  load_op : ℕ → Option ℕ → Op
  consume_op delete_op : String → Op
  cooldown_op : String → ℕ → Op
  latch_op : ℕ → String → String → Op

module _ (too_long : ℕ → String → Bool) where
  unfoldable pub apply : Op → SafetyStateStore → SafetyStateStore
  apply (record_op item) s = record_approval item s
  apply (load_op now ttl) s = (load_pending now ttl s).0
  apply (consume_op id) s = (consume_approval id s).0
  apply (delete_op id) s = delete_approval id s
  apply (cooldown_op name at) s = set_cooldown name at s
  apply (latch_op now name reason) s = elim (engage_latch too_long now name reason s) [
    | none ↦ s
    | some s' ↦ s'
  ]

  unfoldable pub run : List Op → SafetyStateStore → SafetyStateStore
  run [] s = s
  run (op ∷ ops) s = run ops (apply op s)

  apply-keeps_latch :
      (op : Op) (s : SafetyStateStore) (name : String) (latch : Latch)
      → get name s.autonomy_latches ≡ some latch
      → get name (apply op s).autonomy_latches ≡ some latch
  unfolding apply record_approval load_pending consume_approval delete_approval set_cooldown
      engage_latch
  apply-keeps_latch (record_op item) s name latch e = ground arith
  apply-keeps_latch (load_op now ttl) s name latch e = e
  apply-keeps_latch (consume_op id) s name latch e = ground arith
  apply-keeps_latch (delete_op id) s name latch e = e
  apply-keeps_latch (cooldown_op other at) s name latch e = e
  apply-keeps_latch (latch_op now other reason) s name latch e = ground (
    arith,
    str_eq_iff other name,
    get-put other name (record { reason = reason; engaged_at = now }) s.autonomy_latches,
  )

  -- A latch that was engaged stays, with its first reason and time, whatever calls follow.
  pub latch_stays :
      (ops : List Op) (s : SafetyStateStore) (name : String) (latch : Latch)
      → get name s.autonomy_latches ≡ some latch
      → get name (run ops s).autonomy_latches ≡ some latch
  unfolding run
  latch_stays [] s name latch e = e
  latch_stays (op ∷ ops) s name latch e =
      latch_stays ops (apply op s) name latch (apply-keeps_latch op s name latch e)

-- Recording a new approval and then deciding it gives it back; recording an id that is pending
-- gives the decider the earlier item, with its earlier time.
pub record_then_consume :
    (item : Approval) (s : SafetyStateStore)
    → (consume_approval item.id (record_approval item s)).1
      ≡ some (elim (consume_approval item.id s).1 [ none ↦ item | some earlier ↦ earlier ])
unfolding consume_approval record_approval
record_then_consume item s =
    elim (Option-cases (first_where (has_id item.id) s.approvals_pending)) [
      | inl nothing ↦
          let free : count_where (has_id item.id) s.approvals_pending ≡ 0 =
            count_where-none (has_id item.id) s.approvals_pending nothing in
          let added : first_where (has_id item.id) (s.approvals_pending ++ item ∷ []) ≡ some item =
            first_where-append_new (has_id item.id) s.approvals_pending item free
              (ground (arith, str_eq_iff item.id item.id)) in
          ground arith
      | inr (a, found) ↦
          let taken : 1 ≤ count_where (has_id item.id) s.approvals_pending =
            count_where_found (has_id item.id) s.approvals_pending a found in
          ground arith
    ]
