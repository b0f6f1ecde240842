-- ===== src/Core/SafetyState.antt =====
-- Pending approvals, cooldowns and latches: src/hive/core/safety_state.py. Each call is one
-- transaction; a JSON text is kept as it is stored. Times are milliseconds.
pub mod Decisions
use hive_os.Base.{
  ℕ, ◌+◌, String, Bool, true, false, not, Option, none, some, List, [], ◌∷◌, ◌++◌, map, ltb, ◌||◌,
  if◌then◌else◌, str_eq, is_some,
}
use hive_os.Dict.{Dict, get, put, has}
use hive_os.Table.{select, count_where, first_where, delete_where}

-- A row of approvals_pending.
pub record Approval : Type 0 where
  pub id : String
  pub tool : String
  pub args_json : String
  pub reason : String
  pub kind : String
  pub requested_at : ℕ
  pub run_id : String

-- A row of autonomy_latches, under its name.
pub record Latch : Type 0 where
  pub reason : String
  pub engaged_at : ℕ

pub record SafetyStateStore : Type 0 where
  pub approvals_pending : List Approval
  pub autonomy_cooldowns : Dict ℕ
  pub autonomy_latches : Dict Latch

unfoldable pub empty_store : SafetyStateStore
empty_store = record { approvals_pending = []; autonomy_cooldowns = []; autonomy_latches = [] }

abbrev pub has_id : String → Approval → Bool
has_id id a = str_eq a.id id

-- INSERT OR IGNORE
unfoldable pub record_approval : Approval → SafetyStateStore → SafetyStateStore
record_approval item s =
    if ltb 0 (count_where (has_id item.id) s.approvals_pending)
    then s
    else record s { approvals_pending = s.approvals_pending ++ item ∷ [] }

-- ttl_seconds is not None and now - requested_at > ttl_seconds
unfoldable pub is_expired : ℕ → Option ℕ → Approval → Bool
is_expired now none a = false
is_expired now (some ttl) a = ltb (a.requested_at + ttl) now

is_in : List String → Approval → Bool
is_in [] a = false
is_in (id ∷ ids) a = str_eq a.id id || is_in ids a

-- executemany("DELETE … WHERE id=?", ids)
delete_each : List String → List Approval → List Approval
delete_each [] rows = rows
delete_each (id ∷ ids) rows = delete_each ids (delete_where (has_id id) rows)

-- The live rows and the ids of the expired ones.
unfoldable pub load_pending :
    ℕ → Option ℕ → SafetyStateStore → SafetyStateStore × (List Approval × List String)
unfolding is_expired is_in delete_each
load_pending now ttl s =
    let expired = map (λ (a : Approval). a.id) (select (is_expired now ttl) s.approvals_pending) in
    (
      record s { approvals_pending = delete_each expired s.approvals_pending },
      (select (λ a. not (is_in expired a)) s.approvals_pending, expired),
    )

unfoldable pub consume_approval : String → SafetyStateStore → SafetyStateStore × Option Approval
consume_approval approval_id s = elim (first_where (has_id approval_id) s.approvals_pending) [
  | none ↦ (s, none)
  | some a ↦ (
    record s { approvals_pending = delete_where (has_id approval_id) s.approvals_pending },
    some a,
  )
]

unfoldable pub delete_approval : String → SafetyStateStore → SafetyStateStore
delete_approval approval_id s = record s {
  approvals_pending = delete_where (has_id approval_id) s.approvals_pending;
}

unfoldable pub get_cooldown : String → SafetyStateStore → Option ℕ
get_cooldown name s = get name s.autonomy_cooldowns

unfoldable pub set_cooldown : String → ℕ → SafetyStateStore → SafetyStateStore
set_cooldown name last_triggered_at s = record s {
  autonomy_cooldowns = put name last_triggered_at s.autonomy_cooldowns;
}

-- None where the call raises a ValueError; `too_long n s` is `len(s) > n`.
module _ (too_long : ℕ → String → Bool) where
  unfoldable pub engage_latch : ℕ → String → String → SafetyStateStore → Option SafetyStateStore
  engage_latch now name reason s =
      if str_eq name "" || too_long 64 name
      then none
      else if str_eq reason "" || too_long 256 reason
      then none
      else if has name s.autonomy_latches
      then some s
      else some (record s {
        autonomy_latches =
            put name (record { reason = reason; engaged_at = now }) s.autonomy_latches;
      })

unfoldable pub is_latched : String → SafetyStateStore → Bool
is_latched name s = has name s.autonomy_latches
