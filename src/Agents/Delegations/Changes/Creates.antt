-- ===== src/Agents/Delegations/Changes/Creates.antt =====
-- The call that creates a delegation is a change.
use hive_os.Base.{
  ℕ, ◌+◌, ◌-◌, String, Bool, true, false, not, some, List, ◌≡◌, refl, inl, inr, ◌⊎◌, Bool-cases,
  Option-cases, arith, str_eq, ◌&&◌, ◌||◌, ◌==◌, leb, ltb, min, length, if◌then◌else◌,
}
use hive_os.Table.{count_where, first_where}
use hive_os.Agents.Delegations.{
  running, state_eq, in_time, is_in, Delegation, Ledger, Runtime, Error, Result, returned, raised,
  has_id, update,
}
use hive_os.Agents.Delegations.Changes.{Change, nothing, followed, rooted, nested, RootOk, ChildOk}
use hive_os.Agents.Delegations.Changes.Calls.{event-Change}
use hive_os.Agents.Delegations.Profiles.{SpecialistProfile, specialist_profile}
use hive_os.Agents.Delegations.Create.{
  Plan, root_plan, child_plan, nested_plan, plan_of, inherited, own_root, is_local, is_child_of,
  new_row, reserve, insert, create,
}

returned-injective {ℓ} :
    {A : Type ℓ} {a b : A} → ◌≡◌ {A = Result A} (returned a) (returned b) → a ≡ b
returned-injective e = cc

Result-cases : (r : Result Plan) → ((p : Plan) × (r ≡ returned p)) ⊎ ((e : Error) × (r ≡ raised e))
Result-cases (returned p) = inl (p, refl)
Result-cases (raised e) = inr (e, refl)

-- A guard that raises was not met by what was returned.
passed :
    (b : Bool) (x : Error) (r : Result Plan) (p : Plan)
    → (if b then raised x else r) ≡ returned p
    → r ≡ returned p
passed true x r p e = cc
passed false x r p e = e

raised_ne_returned : (x : Error) (p : Plan) → ◌≡◌ {A = Result Plan} (raised x) (returned p) → ⊥
raised_ne_returned x p e = cc

-- What a plan promises of the row that it becomes.
root_plan-RootOk :
    (now : ℕ) (self : Runtime) (id capability parent_run child_run parent_id : String)
    (profile : SpecialistProfile) (p : Plan)
    → root_plan self id profile ≡ returned p
    → RootOk (new_row now id capability parent_run child_run parent_id profile p)
unfolding root_plan new_row
root_plan-RootOk now self id capability parent_run child_run parent_id profile p e =
    elim (Bool-cases (ltb 0 profile.max_delegation_depth && str_eq self.machine_identity "")) [
      | inl nameless ↦ absurd (ground arith)
      | inr named ↦
          let same = returned-injective (rw named at e) in
          rw (← same) (record {
            own_root = refl;
            turns_reserved = refl;
            calls_reserved = refl;
            seconds_reserved = refl;
            turns_fit = omega arith;
            calls_fit = omega arith;
            seconds_fit = omega arith;
          })
    ]

child_plan-ChildOk :
    (now : ℕ) (self : Runtime) (id capability parent_run child_run parent_id : String)
    (profile : SpecialistProfile) (parent root : Delegation) (tools : List String) (p : Plan)
    → child_plan self profile parent root tools ≡ returned p
    → ChildOk root (new_row now id capability parent_run child_run parent_id profile p)
      × (p.root ≡ own_root parent)
unfolding child_plan new_row
child_plan-ChildOk now self id capability parent_run child_run parent_id profile parent root tools p
      e =
    elim (Bool-cases (
      ltb
        (min (min profile.max_worker_turns (root.branch_max_turns - root.branch_reserved_turns)) (
          min
            (min profile.max_worker_tool_calls
              (root.branch_max_tool_calls - root.branch_reserved_tool_calls))
            (min profile.max_worker_seconds
              (root.branch_max_seconds - root.branch_reserved_seconds))))
        1)) [
          | inl spent_up ↦ absurd (ground arith)
          | inr left ↦
              let same = returned-injective (rw left at e) in
              rw (← same) (
                record {
                  turns_left = ground arith;
                  calls_left = ground arith;
                  seconds_left = ground arith;
                  none_reserved = (refl, refl, refl);
                },
                refl,
              )
        ]

-- A nested plan comes from a root that is there.
nested_plan-ChildOk :
    (casefold : String → String) (now : ℕ) (self : Runtime)
    (id capability parent_run child_run parent_id : String) (profile : SpecialistProfile)
    (l : Ledger) (p : Plan)
    → nested_plan casefold now self profile parent_id l ≡ returned p
    → (root : Delegation) × (first_where (has_id p.root) l.delegations ≡ some root)
      × ChildOk root (new_row now id capability parent_run child_run parent_id profile p)
unfolding nested_plan
nested_plan-ChildOk casefold now self id capability parent_run child_run parent_id profile l p e =
    let e₁ = passed (str_eq self.machine_identity "") _ _ p e in
    elim (Option-cases (first_where (has_id parent_id) l.delegations)) [
      | inl gone ↦ absurd (raised_ne_returned _ p (rw gone at e₁))
      | inr (parent, found) ↦
          let e₂ =
            passed (not (state_eq parent.state running) || not (in_time now parent)) _ _ p
              (rw found at e₁) in
          let e₃ = passed (not (is_local self parent)) _ _ p e₂ in
          elim (Option-cases (specialist_profile casefold parent.role)) [
            | inl unknown ↦ absurd (raised_ne_returned _ p (rw unknown at e₃))
            | inr (q, known) ↦
                let e₄ =
                  passed (not (is_in profile.name q.allowed_child_roles)) _ _ p (rw known at e₃) in
                let e₅ = passed (ltb parent.max_depth (parent.depth + 1)) _ _ p e₄ in
                let e₆ =
                  passed
                    (leb parent.max_children (count_where (is_child_of parent_id) l.delegations)) _
                    _ p e₅ in
                elim (Option-cases (first_where (has_id (own_root parent)) l.delegations)) [
                  | inl lost ↦ absurd (raised_ne_returned _ p (rw lost at e₆))
                  | inr (root, there) ↦
                      let e₇ =
                        passed (length (inherited parent.granted_tools profile.allowed_tools) == 0)
                          _ _ p (rw there at e₆) in
                      let ok =
                        child_plan-ChildOk now self id capability parent_run child_run parent_id
                          profile parent root (inherited parent.granted_tools profile.allowed_tools)
                          p e₇ in
                      (root, rw ok.1 there, ok.0)
                ]
          ]
    ]

insert-Change :
    (casefold : String → String) (now : ℕ) (self : Runtime)
    (id capability parent_run child_run parent_id : String) (profile : SpecialistProfile)
    (l : Ledger) (p : Plan)
    → plan_of casefold now self profile id parent_id l ≡ returned p
    → count_where (has_id id) l.delegations ≡ 0
    → Change l (
        insert now
          (new_row now id capability parent_run child_run parent_id profile p)
          (reserve parent_id p l))
unfolding insert reserve update new_row
insert-Change casefold now self id capability parent_run child_run parent_id profile l p planned
      fresh =
    elim (Bool-cases (str_eq parent_id "")) [
      | inl top ↦
          let made =
            root_plan-RootOk now self id capability parent_run child_run parent_id profile p
              (rw top at planned) in
          rw top (
            followed
              (rooted l (new_row now id capability parent_run child_run parent_id profile p) fresh
                refl made)
              (followed (event-Change now id _ _) (event-Change now id _ _)))
      | inr below ↦
          let (root, there, ok) =
            nested_plan-ChildOk casefold now self id capability parent_run child_run parent_id
              profile l p (rw below at planned) in
          rw below (
            followed
              (nested l root (new_row now id capability parent_run child_run parent_id profile p)
                fresh refl there ok)
              (followed (event-Change now id _ _) (event-Change now id _ _)))
    ]

pub create-Change :
    (casefold : String → String) (now : ℕ) (self : Runtime)
    (id capability parent_run child_run role parent_id : String) (l : Ledger)
    → Change l (create casefold now self id capability parent_run child_run role parent_id l).0
unfolding create
create-Change casefold now self id capability parent_run child_run role parent_id l =
    elim (Option-cases (specialist_profile casefold role)) [
      | inl unknown ↦ rw (unknown, create) nothing
      | inr (profile, known) ↦
          elim (Result-cases (plan_of casefold now self profile id parent_id l)) [
            | inr (x, refused) ↦ rw (known, create, refused) nothing
            | inl (p, planned) ↦ elim (Bool-cases (ltb 0 (count_where (has_id id) l.delegations))) [
              | inl taken ↦ rw (known, create, planned, taken) nothing
              | inr free ↦
                  rw (known, create, planned, free)
                    (insert-Change casefold now self id capability parent_run child_run parent_id
                      profile l p planned (ground arith))
            ]
          ]
    ]
