-- ===== src/Agents/Delegations/Branches/Totals.antt =====
-- The three budgets of a branch as one interface, and what its rows may spend together.
use hive_os.Base.{
  ℕ, ◌+◌, ◌≤◌, String, Bool, true, false, List, [], ◌∷◌, ◌++◌, ◌≡◌, refl, inl, inr, Bool-cases,
  arith, str_eq, if◌then◌else◌,
}
use hive_os.Table.{count_where, update_where}
use hive_os.Table.Rows.{count_where-append}
use hive_os.Agents.Delegations.{Delegation, has_id}
use hive_os.Agents.Delegations.Changes.{RowStep, RootOk, ChildOk, reserve_for}

-- One of the budgets: what a row may spend, what a root has reserved, what it allows in all.
pub record Allowance : Type 0 where
  pub worker : Delegation → ℕ
  pub reserved : Delegation → ℕ
  pub limit : Delegation → ℕ
  pub kept_worker : {d e : Delegation} → RowStep d e → worker e ≡ worker d
  pub kept_reserved : {d e : Delegation} → RowStep d e → reserved e ≡ reserved d
  pub kept_limit : {d e : Delegation} → RowStep d e → limit e ≡ limit d
  pub reserves : (e d : Delegation) → reserved (reserve_for e d) ≡ reserved d + worker e
  pub reserves_only :
      (e d : Delegation)
      → (worker (reserve_for e d) ≡ worker d) × (limit (reserve_for e d) ≡ limit d)
  pub of_root : {d : Delegation} → RootOk d → (reserved d ≡ worker d) × (worker d ≤ limit d)
  pub of_child : {r d : Delegation} → ChildOk r d → reserved r + worker d ≤ limit r

abbrev pub turns : Allowance
turns = record {
  worker = λ d. d.max_worker_turns;
  reserved = λ d. d.branch_reserved_turns;
  limit = λ d. d.branch_max_turns;
  kept_worker = λ s. s.same_turns;
  kept_reserved = λ s. s.same_reserved_turns;
  kept_limit = λ s. s.same_branch_turns;
  reserves = λ e d. refl;
  reserves_only = λ e d. (refl, refl);
  of_root = λ ok. (ok.turns_reserved, ok.turns_fit);
  of_child = λ ok. ok.turns_left;
}

abbrev pub tool_calls : Allowance
tool_calls = record {
  worker = λ d. d.max_worker_tool_calls;
  reserved = λ d. d.branch_reserved_tool_calls;
  limit = λ d. d.branch_max_tool_calls;
  kept_worker = λ s. s.same_calls;
  kept_reserved = λ s. s.same_reserved_calls;
  kept_limit = λ s. s.same_branch_calls;
  reserves = λ e d. refl;
  reserves_only = λ e d. (refl, refl);
  of_root = λ ok. (ok.calls_reserved, ok.calls_fit);
  of_child = λ ok. ok.calls_left;
}

abbrev pub seconds : Allowance
seconds = record {
  worker = λ d. d.max_worker_seconds;
  reserved = λ d. d.branch_reserved_seconds;
  limit = λ d. d.branch_max_seconds;
  kept_worker = λ s. s.same_seconds;
  kept_reserved = λ s. s.same_reserved_seconds;
  kept_limit = λ s. s.same_branch_seconds;
  reserves = λ e d. refl;
  reserves_only = λ e d. (refl, refl);
  of_root = λ ok. (ok.seconds_reserved, ok.seconds_fit);
  of_child = λ ok. ok.seconds_left;
}

-- What the rows of a branch may spend together: the rows whose root is `id`.
unfoldable pub branch_total : (Delegation → ℕ) → String → List Delegation → ℕ
branch_total worker id [] = 0
branch_total worker id (d ∷ ds) =
    let rest = branch_total worker id ds in
    if str_eq d.root_delegation_id id then worker d + rest else rest

module _ (a : Allowance) where
  abbrev pub Kept : Delegation → Delegation → Type 0
  Kept e d = (e.root_delegation_id ≡ d.root_delegation_id) × (a.worker e ≡ a.worker d)

  pub branch_total-append :
      (id : String) (ds es : List Delegation)
      → branch_total a.worker id (ds ++ es)
        ≡ branch_total a.worker id ds + branch_total a.worker id es
  unfolding branch_total
  branch_total-append id [] es = omega arith
  branch_total-append id (d ∷ ds) es = ground (arith, branch_total-append id ds es)

  pub branch_total-update_where :
      (id : String) (p : Delegation → Bool) (f : Delegation → Delegation) (ds : List Delegation)
      → ((d : Delegation) → p d ≡ true → Kept (f d) d)
      → branch_total a.worker id (update_where p f ds) ≡ branch_total a.worker id ds
  unfolding branch_total update_where
  branch_total-update_where id p f [] keep = refl
  branch_total-update_where id p f (d ∷ ds) keep = elim (Bool-cases (p d)) [
    | inl hit ↦
        rw (hit, (keep d hit).1, (keep d hit).0, branch_total-update_where id p f ds keep) refl
    | inr miss ↦ rw (miss, branch_total-update_where id p f ds keep) refl
  ]

  -- A row that a branch did not have: its own share is all that the total gains.
  pub total-new :
      (id : String) (ds : List Delegation) (e : Delegation)
      → branch_total a.worker id (ds ++ e ∷ [])
        ≡ branch_total a.worker id ds + (if str_eq e.root_delegation_id id then a.worker e else 0)
  unfolding branch_total
  total-new id ds e = ground (arith, branch_total-append id ds (e ∷ []))

  pub total-other :
      (id : String) (ds : List Delegation) (e : Delegation)
      → str_eq e.root_delegation_id id ≡ false
      → branch_total a.worker id (ds ++ e ∷ []) ≡ branch_total a.worker id ds
  total-other id ds e other = rw (total-new id ds e, other) (omega arith)

  pub count-new :
      (id : String) (ds : List Delegation) (e : Delegation)
      → count_where (has_id id) (ds ++ e ∷ [])
        ≡ count_where (has_id id) ds + (if str_eq e.id id then 1 else 0)
  unfolding count_where
  count-new id ds e = ground (arith, count_where-append (has_id id) ds (e ∷ []))
