-- ===== src/Table/Rounds.antt =====
-- A round over the due rows of a table: it settles each of them by an UPDATE of its key, until none is due.
use hive_os.Base.{
  ℕ, Bool, true, false, List, [], ◌∷◌, ◌≡◌, refl, inl, inr, Bool-cases, All, All-map, arith, ◌||◌,
  ◌==◌,
}
use hive_os.Table.{select, count_where, update_where}

module _ {R : Type 0} (key : R → ℕ) (is_due : R → Bool) where
  unfoldable pub among : ℕ → List R → Bool
  among n [] = false
  among n (r ∷ rs) = (key r == n) || among n rs

  -- Every due row is still to be settled.
  abbrev pub Pending : List R → List R → Type 0
  Pending due rows = All (λ (x : R). is_due x ≡ true → among (key x) due ≡ true) rows

  pub count_where-Pending : (rows : List R) → Pending [] rows → count_where is_due rows ≡ 0
  unfolding count_where among
  count_where-Pending [] h = refl
  count_where-Pending (x ∷ rows) h = elim (Bool-cases (is_due x)) [
    | inl due ↦ absurd (ground (arith, h.0 due))
    | inr idle ↦ rw idle (count_where-Pending rows h.1)
  ]

  pub Pending-select : (rows : List R) → Pending (select is_due rows) rows
  unfolding select among
  Pending-select [] = tt
  Pending-select (x ∷ rows) = elim (Bool-cases (is_due x)) [
    | inl due ↦ (
      (λ _. ground arith),
      All-map _ _ rows (λ y old is_d. ground (arith, old is_d)) (Pending-select rows),
    )
    | inr idle ↦ (
      (λ is_d. ground arith),
      All-map _ _ rows (λ y old is_d. ground (arith, old is_d)) (Pending-select rows),
    )
  ]

  pub Pending-update_where :
      (f : R → R) (r : R) (due rows : List R)
      → All (λ (x : R). is_due (f x) ≡ false) rows
      → Pending (r ∷ due) rows
      → Pending due (update_where (λ x. key x == key r) f rows)
  unfolding update_where among
  Pending-update_where f r due [] settles h = tt
  Pending-update_where f r due (x ∷ rows) settles h = (
    (λ is_d. elim (Bool-cases (key x == key r)) [
      | inl hit ↦
          let still : is_due (f x) ≡ true = rw hit at is_d in absurd (ground (arith, settles.0))
      | inr miss ↦ rw miss (let old = h.0 (rw miss at is_d) in ground arith)
    ]),
    Pending-update_where f r due rows settles.1 h.1,
  )
