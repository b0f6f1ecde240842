-- ===== src/Agents/Delegations/Changes/Calls.antt =====
-- Every call is a change.
use hive_os.Base.{
  some, some-injective, ap, ℕ, zero, suc, String, Bool, true, false, not, List, [], ◌∷◌, ◌≡◌, refl,
  inl, inr, Bool-cases, Option-cases, arith, str_eq, ◌&&◌, ◌==◌, leb, length,
}
use hive_os.Table.{count_where, first_where, update_where}
use hive_os.Agents.Delegations.{
  running, state_eq, Capability, expired, revoked, is_active, Delegation, Lease, Ledger, has_id,
  event, update, with_capability, is_open, revoke_descendant_grants, expire, grant_is_active, climb,
  is_in, parent_of, ancestors_authorized,
}
use hive_os.Agents.Delegations.Changes.{
  stays, RowStep, LeaseStep, Change, nothing, followed, noted, updated, spent,
}
use hive_os.Agents.Delegations.Attempts.{
  matches, attempt_authorized, authorize_attempt, consume, consume_model_call, consume_tool_call,
}
use hive_os.Agents.Delegations.Claim.{is_lease}

pub event-Change : (now : ℕ) (id type : String) (l : Ledger) → Change l (event now id type l)
unfolding event
event-Change now id type l = noted l _ l.owners

-- An UPDATE of columns that no invariant reads.
with_capability-RowStep : (c : Capability) (d : Delegation) → RowStep d (with_capability c d)
with_capability-RowStep c d = record {
  same_id = refl;
  same_root = refl;
  same_budget = refl;
  same_turns = refl;
  same_calls = refl;
  same_seconds = refl;
  same_branch_turns = refl;
  same_branch_calls = refl;
  same_branch_seconds = refl;
  same_reserved_turns = refl;
  same_reserved_calls = refl;
  same_reserved_seconds = refl;
  moves = stays;
  attempts_rise = omega arith;
  in_budget = λ h. h;
}

regrant-Change :
    (p : Delegation → Bool) (c : Capability) (l : Ledger)
    → Change l (update p (with_capability c) l)
unfolding update
regrant-Change p c l = updated l p (with_capability c) (λ d hit. with_capability-RowStep c d)

pub revoke_descendant_grants-Change :
    (now : ℕ) (include_root : Bool) (id : String) (l : Ledger)
    → Change l (revoke_descendant_grants now include_root id l)
unfolding revoke_descendant_grants
revoke_descendant_grants-Change now true id l =
    followed (regrant-Change _ revoked l)
      (followed (regrant-Change _ revoked _) (event-Change now id _ _))
revoke_descendant_grants-Change now false id l =
    followed (regrant-Change _ revoked l) (event-Change now id _ _)

expire-Change : (now : ℕ) (d : Delegation) (l : Ledger) → Change l (expire now d l)
unfolding expire
expire-Change now d l =
    followed (regrant-Change _ expired l)
      (followed (event-Change now d.id _ _) (revoke_descendant_grants-Change now false d.id _))

grant_is_active-Change :
    (now : ℕ) (d : Delegation) (l : Ledger) → Change l (grant_is_active now d l).0
unfolding grant_is_active
grant_is_active-Change now d l = elim (Bool-cases (not (is_active d.capability_state))) [
  | inl idle ↦ rw idle nothing
  | inr live ↦ elim (Bool-cases (leb now d.capability_deadline_ts)) [
    | inl early ↦ rw (live, early) nothing
    | inr late ↦ rw (live, late) (expire-Change now d l)
  ]
]

climb-Change :
    (fuel now : ℕ) (seen : List String) (parent : String) (l : Ledger) (answer : Ledger × Bool)
    → climb fuel now seen parent l ≡ some answer
    → Change l answer.0
unfolding climb
climb-Change zero now seen parent l answer e = absurd cc
climb-Change (suc fuel) now seen parent l answer e = elim (Bool-cases (str_eq parent "")) [
  | inl top ↦ same (rw top at e)
  | inr more ↦ elim (Bool-cases (is_in parent seen)) [
    | inl old ↦ same (rw (more, old) at e)
    | inr new ↦ elim (Option-cases (first_where (has_id parent) l.delegations)) [
      | inl gone ↦ same (rw (more, new, gone) at e)
      | inr (d, found) ↦ elim (Bool-cases (not (state_eq d.state running))) [
        | inl stopped ↦ same (rw (more, new, found, stopped) at e)
        | inr going ↦ elim (Bool-cases (grant_is_active now d l).1) [
          | inr refused ↦
              let is : some ((grant_is_active now d l).0, false) ≡ some answer =
                rw (more, new, found, going, refused, climb) at e in
              let kept : (grant_is_active now d l).0 ≡ answer.0 =
                ap (λ x. x.0) (some-injective is) in
              rw (← kept) (grant_is_active-Change now d l)
          | inl granted ↦ followed (grant_is_active-Change now d l) (
              climb-Change fuel now (parent ∷ seen) d.parent_delegation_id
                (grant_is_active now d l).0 answer
                (rw (more, new, found, going, granted, climb) at e))
        ]
      ]
    ]
  ]
]
  where
    same : {b : Bool} → some (l, b) ≡ some answer → Change l answer.0
    same e = let kept : l ≡ answer.0 = ap (λ x. x.0) (some-injective e) in rw (← kept) nothing

pub ancestors_authorized-Change :
    (now : ℕ) (id : String) (l : Ledger) → Change l (ancestors_authorized now id l).0
unfolding ancestors_authorized
ancestors_authorized-Change now id l =
    let climbed = climb (suc (suc (length l.delegations))) now (id ∷ []) (parent_of id l) l in
    elim (Option-cases climbed) [
      | inl over ↦ rw over nothing
      | inr (answer, e) ↦ rw e (
          climb-Change (suc (suc (length l.delegations))) now (id ∷ []) (parent_of id l) l answer e)
    ]

pub attempt_authorized-Change :
    (now : ℕ) (id capability role : String) (attempt : ℕ) (l : Ledger)
    → Change l (attempt_authorized now id capability role attempt l).0
unfolding attempt_authorized
attempt_authorized-Change now id capability role attempt l =
    elim (Option-cases (first_where (has_id id) l.delegations)) [
      | inl gone ↦ rw (gone, attempt_authorized) nothing
      | inr (d, found) ↦ elim (Bool-cases (not (matches capability role attempt d))) [
        | inl other ↦ rw (found, attempt_authorized, other) nothing
        | inr same ↦ elim (Bool-cases (grant_is_active now d l).1) [
          | inr refused ↦
              rw (found, attempt_authorized, same, refused) (grant_is_active-Change now d l)
          | inl granted ↦
              rw (found, attempt_authorized, same, granted)
                (followed (grant_is_active-Change now d l)
                  (ancestors_authorized-Change now id (grant_is_active now d l).0))
        ]
      ]
    ]

pub authorize_attempt-Change :
    (now : ℕ) (id capability role : String) (attempt : ℕ) (l : Ledger)
    → Change l (authorize_attempt now id capability role attempt l).0
unfolding authorize_attempt
authorize_attempt-Change now id capability role attempt l =
    elim (Bool-cases (attempt_authorized now id capability role attempt l).1) [
      | inl ok ↦ rw ok (attempt_authorized-Change now id capability role attempt l)
      | inr denied ↦ rw denied (
          followed (attempt_authorized-Change now id capability role attempt l)
            (event-Change now id _ _))
    ]

module _ (room : Lease → Bool) (spend : Lease → Lease)
    (step : (k : Lease) → room k ≡ true → LeaseStep k (spend k)) where
  consume-Change :
      (name : String) (now : ℕ) (id capability role : String) (attempt : ℕ) (l : Ledger)
      → Change l (consume room spend name now id capability role attempt l).0
  unfolding consume
  consume-Change name now id capability role attempt l =
      elim (Bool-cases (attempt_authorized now id capability role attempt l).1) [
        | inr denied ↦ rw denied (
            followed (attempt_authorized-Change now id capability role attempt l)
              (event-Change now id _ _))
        | inl ok ↦
            elim (Bool-cases (
              not (
                count_where hit (attempt_authorized now id capability role attempt l).0.leases
                == 1))) [ inl full ↦ rw (ok, full) (taken _) | inr one ↦ rw (ok, one) (taken _) ]
      ]
    where
      hit : Lease → Bool
      hit k = is_lease id attempt k && (is_open k.state && room k)

      taken :
          (type : String)
          → Change l (
              event now id type (record (attempt_authorized now id capability role attempt l).0 {
                leases =
                    update_where hit spend
                      (attempt_authorized now id capability role attempt l).0.leases;
              }))
      taken type = followed (attempt_authorized-Change now id capability role attempt l) (
          followed
            (spent (attempt_authorized now id capability role attempt l).0 hit spend
              (λ k hits. step k (ground arith)))
            (event-Change now id type _))

pub consume_model_call-Change :
    (now : ℕ) (id capability role : String) (attempt : ℕ) (l : Ledger)
    → Change l (consume_model_call now id capability role attempt l).0
unfolding consume_model_call
consume_model_call-Change now id capability role attempt l =
    consume-Change _ _ (λ k room. record { model_calls = λ h. ground arith; tool_calls = λ h. h }) _
      now id capability role attempt l

pub consume_tool_call-Change :
    (now : ℕ) (id capability role : String) (attempt : ℕ) (l : Ledger)
    → Change l (consume_tool_call now id capability role attempt l).0
unfolding consume_tool_call
consume_tool_call-Change now id capability role attempt l =
    consume-Change _ _ (λ k room. record { model_calls = λ h. h; tool_calls = λ h. ground arith }) _
      now id capability role attempt l
