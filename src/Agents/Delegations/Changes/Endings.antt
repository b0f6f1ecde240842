-- ===== src/Agents/Delegations/Changes/Endings.antt =====
-- The calls that end an attempt are changes.
use hive_os.Base.{
  ℕ, String, Bool, true, false, not, List, [], ◌∷◌, ◌≡◌, refl, inl, inr, Bool-cases, Option-cases,
  arith, str_eq, ◌&&◌, ltb,
}
use hive_os.Table.{select, count_where, first_where}
use hive_os.Agents.Delegations.{
  State, queued, running, review_required, completed, failed, cancelled, state_eq, Delegation,
  closed, Ledger, Runtime, update,
}
use hive_os.Agents.Delegations.Changes.{
  Moves, stays, then_moves, for_review, completes, fails, is_cancelled, RowStep, Change, nothing,
  followed, updated, spent,
}
use hive_os.Agents.Delegations.Changes.Calls.{event-Change, revoke_descendant_grants-Change}
use hive_os.Agents.Delegations.Attempts.{
  close_resource_lease, holds, release, settle, finish, cancel, revoke, same_claim, is_interrupted,
  recover_one, recover_each, recover_interrupted,
}

close_resource_lease-Change :
    (now : ℕ) (id : String) (attempt : ℕ) (outcome : State) (l : Ledger)
    → Change l (close_resource_lease now id attempt outcome l)
unfolding close_resource_lease
close_resource_lease-Change now id attempt outcome l =
    spent l _ (λ k. record k { state = closed outcome; closed_ts = now })
      (λ k hit. record { model_calls = λ h. h; tool_calls = λ h. h })

is_running : (s : State) → state_eq s running ≡ true → s ≡ running
is_running running e = refl
is_running queued e = cc
is_running review_required e = cc
is_running completed e = cc
is_running failed e = cc
is_running cancelled e = cc

release-RowStep :
    (now : ℕ) (outcome : State) (summary : String) (d : Delegation)
    → Moves running outcome
    → state_eq d.state running ≡ true
    → RowStep d (release now outcome summary d)
unfolding release
release-RowStep now outcome summary d ends going = record {
  same_id = refl;
  same_root = refl;
  same_budget = refl;
  same_turns = refl;
  same_calls = refl;
  same_seconds = refl;
  same_branch_turns = refl;
  same_branch_calls = refl;
  same_branch_seconds = refl;
  same_reserved_turns = refl;
  same_reserved_calls = refl;
  same_reserved_seconds = refl;
  moves = rw (is_running d.state going) (then_moves stays ends);
  attempts_rise = omega arith;
  in_budget = λ h. h;
}

release-Change :
    (p : Delegation → Bool) (now : ℕ) (outcome : State) (summary : String) (l : Ledger)
    → Moves running outcome
    → ((d : Delegation) → p d ≡ true → state_eq d.state running ≡ true)
    → Change l (update p (release now outcome summary) l)
unfolding update
release-Change p now outcome summary l ends going =
    updated l p (release now outcome summary)
      (λ d hit. release-RowStep now outcome summary d ends (going d hit))

settle-Change :
    (now : ℕ) (id : String) (attempt : ℕ) (outcome : State) (summary : String) (l : Ledger)
    → Moves running outcome
    → Change l (settle now id attempt outcome summary l).0
unfolding settle
settle-Change now id attempt outcome summary l ends =
    elim (Bool-cases (ltb 0 (count_where (holds id attempt) l.delegations))) [
      | inr miss ↦ rw miss first
      | inl hit ↦ rw hit (
          followed first (
            followed (close_resource_lease-Change now id attempt outcome _) (
              followed (revoke_descendant_grants-Change now false id _) (event-Change now id _ _))))
    ]
  where
    first : Change l (update (holds id attempt) (release now outcome summary) l)
    first = release-Change (holds id attempt) now outcome summary l ends (λ d hit. ground arith)

pub finish-Change :
    (now : ℕ) (id : String) (attempt : ℕ) (success review : Bool) (summary : String) (l : Ledger)
    → Change l (finish now id attempt success review summary l).0
unfolding finish
finish-Change now id attempt true true summary l =
    settle-Change now id attempt _ summary l for_review
finish-Change now id attempt true false summary l =
    settle-Change now id attempt _ summary l completes
finish-Change now id attempt false review summary l = settle-Change now id attempt _ summary l fails

pub cancel-Change :
    (now : ℕ) (id : String) (attempt : ℕ) (summary : String) (l : Ledger)
    → Change l (cancel now id attempt summary l).0
unfolding cancel
cancel-Change now id attempt summary l = settle-Change now id attempt _ summary l is_cancelled

pub revoke-Change :
    (now : ℕ) (self : Runtime) (id : String) (attempt : ℕ) (l : Ledger)
    → Change l (revoke now self id attempt l).0
unfolding revoke
revoke-Change now self id attempt l =
    elim (Option-cases (first_where (holds id attempt) l.delegations)) [
      | inl gone ↦ rw (gone, revoke) nothing
      | inr (d, found) ↦
          elim (Bool-cases (
            str_eq d.owner_machine_id self.machine_identity
            && str_eq d.owner_instance_id self.owner_instance_id)) [
              | inl own ↦ rw (found, revoke, own) (revoke_descendant_grants-Change now true id l)
              | inr other ↦ rw (found, revoke, other) nothing
            ]
    ]

module _ (alive : ℕ → Bool) (now : ℕ) (self : Runtime) where
  recover_one-Change :
      (d : Delegation) (l : Ledger) (n : ℕ) → Change l (recover_one alive now self d (l, n)).0
  unfolding recover_one
  recover_one-Change d l n = elim (Bool-cases (is_interrupted alive self d l)) [
    | inr safe ↦ rw safe nothing
    | inl lost ↦ elim (Bool-cases (ltb 0 (count_where (same_claim alive self d) l.delegations))) [
      | inr miss ↦ rw (lost, miss) first
      | inl hit ↦
          rw (lost, hit)
            (followed first (
              followed (close_resource_lease-Change now d.id d.attempts failed _)
                (event-Change now d.id _ _)))
    ]
  ]
    where
      first : Change l (
          update
            (same_claim alive self d)
            (release now failed "worker interrupted; recovery requires replanning")
            l)
      first =
          release-Change (same_claim alive self d) now failed
            "worker interrupted; recovery requires replanning" l fails (λ x hit. ground arith)

  recover_each-Change :
      (ds : List Delegation) (l : Ledger) (n : ℕ)
      → Change l (recover_each alive now self ds (l, n)).0
  unfolding recover_each
  recover_each-Change [] l n = nothing
  recover_each-Change (d ∷ ds) l n = followed (recover_one-Change d l n) (
      recover_each-Change ds (recover_one alive now self d (l, n)).0
        (recover_one alive now self d (l, n)).1)

  pub recover_interrupted-Change : (l : Ledger) → Change l (recover_interrupted alive now self l).0
  unfolding recover_interrupted
  recover_interrupted-Change l = elim (Bool-cases (str_eq self.machine_identity "")) [
    | inl nameless ↦ rw nameless nothing
    | inr named ↦ rw named (
        recover_each-Change
          (select
            (λ d.
              state_eq d.state running
              && (str_eq d.owner_machine_id self.machine_identity
                  && not (str_eq d.owner_instance_id "")))
            l.delegations)
          l 0)
  ]
