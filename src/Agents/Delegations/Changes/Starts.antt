-- ===== src/Agents/Delegations/Changes/Starts.antt =====
-- The call that claims a delegation is a change.
use hive_os.Base.{
  ℕ, String, Bool, true, false, not, Option, none, [], ◌∷◌, ◌++◌, ◌≡◌, refl, inl, inr, Bool-cases,
  Option-cases, arith, ◌&&◌, ◌==◌, ltb, if◌then◌else◌,
}
use hive_os.Table.{count_where, first_where}
use hive_os.Agents.Delegations.{
  State, queued, state_eq, is_usable, Delegation, Ledger, Runtime, Result, returned, has_id, update,
  ancestors_authorized,
}
use hive_os.Agents.Delegations.Changes.{
  stays, then_moves, starts, RowStep, Change, nothing, followed, updated, leased,
}
use hive_os.Agents.Delegations.Changes.Calls.{event-Change}
use hive_os.Agents.Delegations.Claim.{
  target_ok, parent_ok, slot_free, is_lease, claimable, start, activate, lease_seconds, started,
  lease_out, claim, new_lease,
}

is_queued : (s : State) → state_eq s queued ≡ true → s ≡ queued
is_queued State.queued e = refl
is_queued State.running e = cc
is_queued State.review_required e = cc
is_queued State.completed e = cc
is_queued State.failed e = cc
is_queued State.cancelled e = cc

start-RowStep :
    (now : ℕ) (self : Runtime) (d : Delegation) → claimable d ≡ true → RowStep d (start now self d)
unfolding start claimable
start-RowStep now self d ready = record {
  same_id = refl;
  same_root = refl;
  same_budget = refl;
  same_turns = refl;
  same_calls = refl;
  same_seconds = refl;
  same_branch_turns = refl;
  same_branch_calls = refl;
  same_branch_seconds = refl;
  same_reserved_turns = refl;
  same_reserved_calls = refl;
  same_reserved_seconds = refl;
  moves =
      let q : state_eq d.state queued ≡ true = ground arith in
      rw (is_queued d.state q) (then_moves stays starts);
  attempts_rise = omega arith;
  in_budget = λ h. ground arith;
}

activate-RowStep : (now span : ℕ) (d : Delegation) → RowStep d (activate now span d)
unfolding activate
activate-RowStep now span d = record {
  same_id = refl;
  same_root = refl;
  same_budget = refl;
  same_turns = refl;
  same_calls = refl;
  same_seconds = refl;
  same_branch_turns = refl;
  same_branch_calls = refl;
  same_branch_seconds = refl;
  same_reserved_turns = refl;
  same_reserved_calls = refl;
  same_reserved_seconds = refl;
  moves = stays;
  attempts_rise = omega arith;
  in_budget = λ h. h;
}

started-Change :
    (now : ℕ) (self : Runtime) (id : String) (d : Delegation) (l : Ledger)
    → Change l (started now self id d l)
unfolding started update
started-Change now self id d l =
    followed
      (updated l (λ x. has_id id x && claimable x) (start now self)
        (λ x hit. start-RowStep now self x (ground arith)))
      (updated _ (λ x. has_id id x && is_usable x.capability_state) (activate now (lease_seconds d))
        (λ x hit. activate-RowStep now (lease_seconds d) x))

lease_out-Change :
    (now : ℕ) (id : String) (before l : Ledger)
    → Change before l
    → Change before (lease_out now id before l).0
unfolding lease_out
lease_out-Change now id before l so_far =
    elim (Option-cases (first_where (has_id id) l.delegations)) [
      | inl gone ↦ rw (gone, lease_out) nothing
      | inr (d, found) ↦ elim (Bool-cases (ltb 0 (count_where (is_lease id d.attempts) l.leases))) [
        | inl taken ↦ rw (found, lease_out, taken) nothing
        | inr free ↦
            rw (found, lease_out, free)
              (followed so_far (
                followed (new_lease-Change d)
                  (followed (event-Change now id _ _) (event-Change now id _ _))))
      ]
    ]
  where
    new_lease-Change :
        (d : Delegation)
        → Change l (record l { leases = l.leases ++ new_lease now id d.attempts d ∷ [] })
    new_lease-Change d = leased l (new_lease now id d.attempts d) refl refl

pub claim-Change :
    (now : ℕ) (self : Runtime) (id : String) (l : Ledger) → Change l (claim now self id l).0
unfolding claim
claim-Change now self id l = elim (Option-cases (first_where (has_id id) l.delegations)) [
  | inl gone ↦ rw (gone, claim) nothing
  | inr (d, found) ↦
      rw (found, claim)
        (guarded (target_ok self d) _ (
          guarded (parent_ok self d l) _ (
            guarded (ancestors_authorized now id l).1 _ (
              guarded (slot_free d l) _ (
                guarded (count_where (λ x. has_id id x && claimable x) l.delegations == 1) _ (
                  guarded
                    (count_where (λ x. has_id id x && is_usable x.capability_state) l.delegations
                      == 1)
                    _
                    (lease_out-Change now id l (started now self id d l)
                      (started-Change now self id d l))))))))
]
  where
    guarded :
        (b : Bool) (r : Ledger × Result (Option ℕ))
        → Change l r.0
        → Change l (if not b then (l, returned none) else r).0
    guarded true r h = h
    guarded false r h = nothing
