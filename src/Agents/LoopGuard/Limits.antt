-- ===== src/Agents/LoopGuard/Limits.antt =====
-- What a guard that stays silent has let through.
use hive_os.Base.{
  ℕ, zero, suc, ◌+◌, ◌-◌, ◌≤◌, String, true, false, Option, none, some, List, [], ◌∷◌, ◌++◌, ◌≡◌,
  refl, ap, ◌∙◌, inl, inr, Option-cases, length, length-append, drop, is_some, arith, str_eq,
  str_eq_iff, get_or, if◌then◌else◌, ◌==◌,
}
use mathlib.Core.List.{append_assoc}
use hive_os.Dict.{get, get-put}
use hive_os.Agents.LoopGuard.{
  LoopGuard, new_guard, last, all_are, one_value, call_count, recorded, verdict, check,
}

abbrev WithinBudget : LoopGuard → Type 0
WithinBudget g = (t : String) → call_count t g ≤ g.max_per_tool

silent-WithinBudget :
    (tool h : String) (g : LoopGuard)
    → WithinBudget g
    → verdict tool (recorded tool h g) ≡ none
    → WithinBudget (recorded tool h g)
unfolding verdict recorded call_count
silent-WithinBudget tool h g ok silent t =
    ground (
      arith,
      get-put tool t (get_or 0 (get tool g.per_tool) + 1) g.per_tool,
      ok t,
      str_eq_iff tool t,
    )

-- How many of the calls name a tool.
unfoldable pub calls_of : {Args : Type 0} → String → List (String × Args) → ℕ
calls_of t [] = 0
calls_of t ((tool, args) ∷ calls) =
    let rest = calls_of t calls in if str_eq tool t then suc rest else rest

recorded_count :
    (t tool h : String) (g : LoopGuard)
    → call_count t (recorded tool h g) ≡ call_count t g + (if str_eq tool t then 1 else 0)
unfolding recorded call_count
recorded_count t tool h g =
    ground
      (arith, get-put tool t (get_or 0 (get tool g.per_tool) + 1) g.per_tool, str_eq_iff tool t)

module _ {Args : Type 0} (digest : String → Args → String) where
  -- A turn: the guard after the calls, none once it gave a reason.
  unfoldable pub turn : LoopGuard → List (String × Args) → Option LoopGuard
  turn g [] = some g
  turn g ((tool, args) ∷ calls) =
      let rest = turn (check digest tool args g).0 calls in
      elim (check digest tool args g).1 [ none ↦ rest | some reason ↦ none ]

  keep-limits :
      (tool h : String) (g : LoopGuard) → (recorded tool h g).max_per_tool ≡ g.max_per_tool
  unfolding recorded
  keep-limits tool h g = refl

  turn-WithinBudget :
      (g g' : LoopGuard) (calls : List (String × Args))
      → WithinBudget g
      → turn g calls ≡ some g'
      → WithinBudget g' × (g'.max_per_tool ≡ g.max_per_tool)
  unfolding turn check
  turn-WithinBudget g g' [] ok e = ground arith
  turn-WithinBudget g g' ((tool, args) ∷ calls) ok e =
      elim (Option-cases (verdict tool (recorded tool (digest tool args) g))) [
        | inr (reason, loud) ↦ absurd (ground arith)
        | inl silent ↦
            let h =
              turn-WithinBudget (recorded tool (digest tool args) g) g' calls
                (silent-WithinBudget tool (digest tool args) g ok silent)
                (rw (silent, turn) at e) in
            (h.0, h.1 ∙ keep-limits tool (digest tool args) g)
      ]

  turn_count :
      (t : String) (g g' : LoopGuard) (calls : List (String × Args))
      → turn g calls ≡ some g'
      → call_count t g' ≡ call_count t g + calls_of t calls
  unfolding turn check calls_of
  turn_count t g g' [] e = ground arith
  turn_count t g g' ((tool, args) ∷ calls) e =
      elim (Option-cases (verdict tool (recorded tool (digest tool args) g))) [
        | inr (reason, loud) ↦ absurd (ground arith)
        | inl silent ↦ ground (
          arith,
          turn_count t (recorded tool (digest tool args) g) g' calls (rw (silent, turn) at e),
          recorded_count t tool (digest tool args) g,
        )
      ]

  -- A turn that a new guard lets through calls no tool more often than the budget of a tool.
  pub within_budget :
      (max_identical max_per_tool : ℕ) (calls : List (String × Args)) (g : LoopGuard) (t : String)
      → turn (new_guard max_identical max_per_tool) calls ≡ some g
      → calls_of t calls ≤ max_per_tool
  unfolding new_guard call_count get
  within_budget max_identical max_per_tool calls g t e =
      let start : LoopGuard = new_guard max_identical max_per_tool in
      let kept = turn-WithinBudget start g calls (λ u. omega arith) e in
      let counted : call_count t g ≡ call_count t start + calls_of t calls =
        turn_count t start g calls e in
      let bound : call_count t g ≤ g.max_per_tool = kept.0 t in ground (arith, kept.1)

  -- `n` equal digests at the end of the history.
  unfoldable pub copies : ℕ → String → List String
  copies zero h = []
  copies (suc n) h = h ∷ copies n h

  length-copies : (n : ℕ) (h : String) → length (copies n h) ≡ n
  unfolding copies
  length-copies zero h = refl
  length-copies (suc n) h = omega (arith, length-copies n h)

  all_are-copies : (n : ℕ) (h : String) → all_are h (copies n h) ≡ true
  unfolding copies all_are
  all_are-copies zero h = refl
  all_are-copies (suc n) h = ground (arith, all_are-copies n h, str_eq_iff h h)

  copies-append : (n : ℕ) (h : String) → copies n h ++ h ∷ [] ≡ h ∷ copies n h
  unfolding copies
  copies-append zero h = refl
  copies-append (suc n) h = ap (λ t. h ∷ t) (copies-append n h)

  drop-append : (xs ys : List String) → drop (length xs) (xs ++ ys) ≡ ys
  drop-append [] ys = refl
  drop-append (x ∷ xs) ys = drop-append xs ys

  last-append : (n : ℕ) (xs ys : List String) → length ys ≡ suc n → last (suc n) (xs ++ ys) ≡ ys
  unfolding last
  last-append n xs ys e =
      let m : length (xs ++ ys) - suc n ≡ length xs = omega (arith, length-append xs ys) in
      let nonzero : (suc n == 0) ≡ false = ground arith in
      rw nonzero (ap (λ m. drop m (xs ++ ys)) m ∙ drop-append xs ys)

  verdict_repeated :
      (tool : String) (g : LoopGuard) (recent : List String)
      → last g.max_identical g.hashes ≡ recent
      → length recent ≡ g.max_identical
      → one_value recent ≡ true
      → is_some (verdict tool g) ≡ true
  unfolding verdict
  verdict_repeated tool g recent e l one = ground (arith, ap length e, ap one_value e)

  recorded_hashes :
      (tool h : String) (g : LoopGuard) → (recorded tool h g).hashes ≡ g.hashes ++ h ∷ []
  unfolding recorded
  recorded_hashes tool h g = refl

  keep-identical :
      (tool h : String) (g : LoopGuard) → (recorded tool h g).max_identical ≡ g.max_identical
  unfolding recorded
  keep-identical tool h g = refl

  -- A call that repeats the last `n` calls, digest for digest, is stopped when `n + 1` is the limit,
  -- whatever came before.
  pub repetition_stopped :
      (tool : String) (args : Args) (g : LoopGuard) (n : ℕ) (before : List String)
      → g.max_identical ≡ suc n
      → g.hashes ≡ before ++ copies n (digest tool args)
      → is_some (check digest tool args g).1 ≡ true
  unfolding check one_value
  repetition_stopped tool args g n before limit tail =
      let h : String = digest tool args in
      let history : (recorded tool h g).hashes ≡ before ++ h ∷ copies n h =
        recorded_hashes tool h g
        ∙ ap (λ t. t ++ h ∷ []) tail
        ∙ (append_assoc before (copies n h) (h ∷ []) ∙ ap (λ t. before ++ t) (copies-append n h)) in
      let recent : last (suc n) (recorded tool h g).hashes ≡ h ∷ copies n h =
        ap (last (suc n)) history
        ∙ last-append n before (h ∷ copies n h) (omega (arith, length-copies n h)) in
      let size : (recorded tool h g).max_identical ≡ suc n = keep-identical tool h g ∙ limit in
      verdict_repeated tool (recorded tool h g) (h ∷ copies n h)
        (ap (λ m. last m (recorded tool h g).hashes) size ∙ recent)
        (omega (arith, length-copies n h, size)) (all_are-copies n h)
