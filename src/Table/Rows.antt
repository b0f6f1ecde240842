-- ===== src/Table/Rows.antt =====
-- Laws of the table operations, for any WHERE clause.
use hive_os.Base.{
  ◌&&◌, false, Option, All-map, if◌then◌else◌, none, ◌≤◌, ◌+◌, Bool, true, some, List, [], ◌∷◌,
  ◌++◌, ◌≡◌, refl, ap, inl, inr, Bool-cases, All, arith, length,
}
use hive_os.Table.{select, count_where, first_where, update_where, delete_where}

module _ {ℓ κ} {R : Type ℓ} (Q : R → Type κ) (p : R → Bool) where
  pub All-update_where :
      (f : R → R) (rs : List R)
      → ((r : R) → p r ≡ true → Q r → Q (f r))
      → All Q rs
      → All Q (update_where p f rs)
  unfolding update_where
  All-update_where f [] keep h = tt
  All-update_where f (r ∷ rs) keep h = elim (Bool-cases (p r)) [
    | inl hit ↦ (rw hit (keep r hit h.0), All-update_where f rs keep h.1)
    | inr miss ↦ (rw miss h.0, All-update_where f rs keep h.1)
  ]

  pub All-delete_where : (rs : List R) → All Q rs → All Q (delete_where p rs)
  unfolding delete_where
  All-delete_where [] h = tt
  All-delete_where (r ∷ rs) h = elim (Bool-cases (p r)) [
    | inl hit ↦ rw hit (All-delete_where rs h.1)
    | inr miss ↦ rw miss (h.0, All-delete_where rs h.1)
  ]

  pub All-select : (rs : List R) → All Q rs → All Q (select p rs)
  unfolding select
  All-select [] h = tt
  All-select (r ∷ rs) h = elim (Bool-cases (p r)) [
    | inl hit ↦ rw hit (h.0, All-select rs h.1)
    | inr miss ↦ rw miss (All-select rs h.1)
  ]

  pub first_where-All : (rs : List R) (r : R) → All Q rs → first_where p rs ≡ some r → Q r
  unfolding first_where
  first_where-All [] r h e = cc
  first_where-All (x ∷ rs) r h e = elim (Bool-cases (p x)) [
    | inl hit ↦ let e' : some x ≡ some r = rw hit at e in let q : x ≡ r = cc in rw (← q) h.0
    | inr miss ↦ first_where-All rs r h.1 (rw miss at e)
  ]

module _ {ℓ} {R : Type ℓ} (p : R → Bool) where
  pub first_where-hit : (rs : List R) (r : R) → first_where p rs ≡ some r → p r ≡ true
  unfolding first_where
  first_where-hit [] r e = cc
  first_where-hit (x ∷ rs) r e = elim (Bool-cases (p x)) [
    | inl hit ↦ ground arith
    | inr miss ↦ first_where-hit rs r (rw miss at e)
  ]

  -- An UPDATE that no row matches changes nothing.
  pub update_where_none :
      (f : R → R) (rs : List R) → count_where p rs ≡ 0 → update_where p f rs ≡ rs
  unfolding update_where count_where
  update_where_none f [] h = refl
  update_where_none f (r ∷ rs) h = elim (Bool-cases (p r)) [
    | inl hit ↦ ground arith
    | inr miss ↦ rw miss (ap (λ t. r ∷ t) (update_where_none f rs (rw miss at h)))
  ]

  pub first_where-none : (rs : List R) → count_where p rs ≡ 0 → first_where p rs ≡ none
  unfolding first_where count_where
  first_where-none [] h = refl
  first_where-none (r ∷ rs) h = ground (arith, first_where-none rs)

  pub count_where-none : (rs : List R) → first_where p rs ≡ none → count_where p rs ≡ 0
  unfolding first_where count_where
  count_where-none [] e = refl
  count_where-none (x ∷ rs) e = ground (arith, count_where-none rs)

  pub count_where_found : (rs : List R) (r : R) → first_where p rs ≡ some r → 1 ≤ count_where p rs
  unfolding first_where count_where
  count_where_found [] r e = cc
  count_where_found (x ∷ rs) r e = ground (arith, count_where_found rs r)

  pub first_where-append_new :
      (rs : List R) (r : R)
      → count_where p rs ≡ 0
      → p r ≡ true
      → first_where p (rs ++ r ∷ []) ≡ some r
  unfolding first_where count_where
  first_where-append_new [] r h e = ground arith
  first_where-append_new (x ∷ rs) r h e = ground (arith, first_where-append_new rs r)

  pub length-select : (rs : List R) → length (select p rs) ≡ count_where p rs
  unfolding select count_where
  length-select [] = refl
  length-select (r ∷ rs) = ground (arith, length-select rs)

  pub All-select_hit : (rs : List R) → All (λ r. p r ≡ true) (select p rs)
  unfolding select
  All-select_hit [] = tt
  All-select_hit (r ∷ rs) = elim (Bool-cases (p r)) [
    | inl hit ↦ rw hit (hit, All-select_hit rs)
    | inr miss ↦ rw miss (All-select_hit rs)
  ]

  pub first_where-append_old :
      (rs ts : List R) (r : R) → first_where p rs ≡ some r → first_where p (rs ++ ts) ≡ some r
  unfolding first_where
  first_where-append_old [] ts r e = cc
  first_where-append_old (x ∷ rs) ts r e = ground (arith, first_where-append_old rs ts r)

  pub count_where-append :
      (rs ts : List R) → count_where p (rs ++ ts) ≡ count_where p rs + count_where p ts
  unfolding count_where
  count_where-append [] ts = omega arith
  count_where-append (r ∷ rs) ts = ground (arith, count_where-append rs ts)

  -- What a DELETE leaves does not match its clause.
  pub count_where-delete_where : (rs : List R) → count_where p (delete_where p rs) ≡ 0
  unfolding count_where delete_where
  count_where-delete_where [] = refl
  count_where-delete_where (r ∷ rs) = elim (Bool-cases (p r)) [
    | inl hit ↦ rw hit (count_where-delete_where rs)
    | inr miss ↦ rw miss (rw miss (count_where-delete_where rs))
  ]

module _ {ℓ} {R : Type ℓ} (p q : R → Bool) where
  -- An UPDATE that does not touch what a clause reads keeps the clause's count.
  pub count_where-update_where :
      (f : R → R) (rs : List R)
      → ((r : R) → q (f r) ≡ q r)
      → count_where q (update_where p f rs) ≡ count_where q rs
  unfolding update_where count_where
  count_where-update_where f [] same = refl
  count_where-update_where f (r ∷ rs) same =
      ground (arith, same r, count_where-update_where f rs same)

  -- Clauses that agree on the rows count the same.
  pub count_where_agree :
      (rs : List R) → All (λ r. p r ≡ q r) rs → count_where p rs ≡ count_where q rs
  unfolding count_where
  count_where_agree [] h = refl
  count_where_agree (r ∷ rs) h = rw (h.0, count_where_agree rs h.1)

  pub count_where-delete_le : (rs : List R) → count_where q (delete_where p rs) ≤ count_where q rs
  unfolding delete_where count_where
  count_where-delete_le [] = omega arith
  count_where-delete_le (r ∷ rs) = ground (arith, count_where-delete_le rs)

-- What an UPDATE makes of the row that a clause finds.
abbrev pub altered {ℓ} : {R : Type ℓ} → (R → Bool) → (R → R) → Option R → Option R
altered p f none = none
altered p f (some r) = some (if p r then f r else r)

module _ {ℓ} {R : Type ℓ} (p q : R → Bool) where
  pub first_where-update_where :
      (f : R → R) (rs : List R)
      → ((r : R) → q (f r) ≡ q r)
      → first_where q (update_where p f rs) ≡ altered p f (first_where q rs)
  unfolding first_where update_where
  first_where-update_where f [] same = refl
  first_where-update_where f (r ∷ rs) same =
      ground (arith, same r, first_where-update_where f rs same)

  pub first_where-update_hit :
      (f : R → R) (rs : List R)
      → ((r : R) → p r ≡ true → q (f r) ≡ q r)
      → first_where q (update_where p f rs) ≡ altered p f (first_where q rs)
  unfolding first_where update_where
  first_where-update_hit f [] same = refl
  first_where-update_hit f (r ∷ rs) same = elim (Bool-cases (p r)) [
    | inl hit ↦ ground (arith, same r hit, first_where-update_hit f rs same)
    | inr miss ↦ ground (arith, first_where-update_hit f rs same)
  ]

  pub count_where-update_hit :
      (f : R → R) (rs : List R)
      → ((r : R) → p r ≡ true → q (f r) ≡ q r)
      → count_where q (update_where p f rs) ≡ count_where q rs
  unfolding update_where count_where
  count_where-update_hit f [] same = refl
  count_where-update_hit f (r ∷ rs) same = elim (Bool-cases (p r)) [
    | inl hit ↦ ground (arith, same r hit, count_where-update_hit f rs same)
    | inr miss ↦ ground (arith, count_where-update_hit f rs same)
  ]

  -- An UPDATE that brings no row into a clause does not raise the clause's count.
  pub count_where-update_le :
      (f : R → R) (rs : List R)
      → ((r : R) → p r ≡ true → q (f r) ≡ true → q r ≡ true)
      → count_where q (update_where p f rs) ≤ count_where q rs
  unfolding update_where count_where
  count_where-update_le f [] back = omega arith
  count_where-update_le f (r ∷ rs) back = elim (Bool-cases (p r)) [
    | inl hit ↦ elim (Bool-cases (q (f r))) [
      | inl now ↦ rw (hit, now, back r hit now) (omega (arith, count_where-update_le f rs back))
      | inr not_now ↦ ground (arith, count_where-update_le f rs back)
    ]
    | inr miss ↦ ground (arith, count_where-update_le f rs back)
  ]

  -- The row that a clause finds is found by a stronger clause that it satisfies.
  pub first_where_stronger :
      (rs : List R) (r : R)
      → first_where q rs ≡ some r
      → p r ≡ true
      → first_where (λ x. q x && p x) rs ≡ some r
  unfolding first_where
  first_where_stronger [] r e h = e
  first_where_stronger (x ∷ rs) r e h = ground (arith, first_where_stronger rs r)

  pub count_where_zero_All : (rs : List R) → count_where q rs ≡ 0 → All (λ r. q r ≡ false) rs
  unfolding count_where
  count_where_zero_All [] h = tt
  count_where_zero_All (r ∷ rs) h = (ground arith, count_where_zero_All rs (ground arith))

  -- The only row of a clause is the one that a stronger clause finds.
  pub All-unique :
      (rs : List R) (r : R)
      → count_where q rs ≤ 1
      → first_where (λ x. q x && p x) rs ≡ some r
      → All (λ x. q x ≡ true → x ≡ r) rs
  unfolding count_where first_where
  All-unique [] r h e = tt
  All-unique (x ∷ rs) r h e = elim (Bool-cases (q x)) [
    | inr miss ↦ (λ k. absurd (ground arith), All-unique rs r (ground arith) (ground arith))
    | inl hit ↦
        let rest : All (λ y. q y ≡ false) rs = count_where_zero_All rs (ground arith) in
        elim (Bool-cases (p x)) [
          | inl good ↦ (λ k. ground arith, All-map _ _ rs (λ y out k. absurd (ground arith)) rest)
          | inr bad ↦
              let here : first_where (λ x. q x && p x) rs ≡ some r = ground arith in
              absurd (no_row rs rest here)
        ]
  ]
    where
      no_row :
          (ys : List R) → All (λ y. q y ≡ false) ys → first_where (λ y. q y && p y) ys ≡ some r → ⊥
      no_row [] h e = cc
      no_row (y ∷ ys) h e = no_row ys h.1 (ground arith)
