-- ===== src/Table/Keyed.antt =====
-- Tables with a numeric primary key that AUTOINCREMENT hands out.
use hive_os.Base.{
  true, ℕ, ◌+◌, ◌≤◌, ◌<◌, Bool, Option, none, some, List, [], ◌∷◌, ◌++◌, ◌≡◌, ◌≢◌, refl, inl, inr,
  if◌then◌else◌, ◌==◌, ◌&&◌, Bool-cases, All, All-map, arith,
}
use hive_os.Table.{count_where, first_where, update_where, delete_where}

module _ {ℓ} {R : Type ℓ} (id : R → ℕ) where
  -- The keys rise from `lo` and stay below `hi`, the next key: so they are distinct.
  abbrev pub Rising : ℕ → List R → ℕ → Type 0
  Rising lo [] hi = lo ≤ hi
  Rising lo (r ∷ rs) hi = (lo ≤ id r) × Rising (id r + 1) rs hi

  -- SELECT * FROM t WHERE id=?
  abbrev pub by_id : ℕ → List R → Option R
  by_id n rs = first_where (λ r. id r == n) rs

  -- WHERE id=? AND g
  abbrev pub at_id : ℕ → (R → Bool) → R → Bool
  at_id n g r = (id r == n) && g r

  -- The rowcount of a statement on one key, seen from the row at that key.
  abbrev pub hits : (R → Bool) → Option R → ℕ
  hits g none = 0
  hits g (some r) = if g r then 1 else 0

  abbrev pub alter : (R → Bool) → (R → R) → Option R → Option R
  alter g f none = none
  alter g f (some r) = some (if g r then f r else r)

  pub Rising-le : (lo hi : ℕ) (rs : List R) → Rising lo rs hi → lo ≤ hi
  Rising-le lo hi [] h = h
  Rising-le lo hi (r ∷ rs) h = omega (arith, Rising-le (id r + 1) hi rs h.1)

  pub Rising-weaken : (lo lo' hi : ℕ) (rs : List R) → lo' ≤ lo → Rising lo rs hi → Rising lo' rs hi
  Rising-weaken lo lo' hi [] l h = omega arith
  Rising-weaken lo lo' hi (r ∷ rs) l h = (omega arith, h.1)

  pub Rising-append :
      (lo hi : ℕ) (rs : List R) (r : R)
      → Rising lo rs hi
      → id r ≡ hi
      → Rising lo (rs ++ r ∷ []) (hi + 1)
  Rising-append lo hi [] r h e = (omega arith, omega arith)
  Rising-append lo hi (x ∷ rs) r h e = (h.0, Rising-append (id x + 1) hi rs r h.1 e)

  pub Rising-delete_where :
      (lo hi : ℕ) (p : R → Bool) (rs : List R) → Rising lo rs hi → Rising lo (delete_where p rs) hi
  unfolding delete_where
  Rising-delete_where lo hi p [] h = h
  Rising-delete_where lo hi p (r ∷ rs) h = elim (Bool-cases (p r)) [
    | inl hit ↦ rw hit (
        Rising-weaken (id r + 1) lo hi (delete_where p rs) (omega arith)
          (Rising-delete_where (id r + 1) hi p rs h.1))
    | inr miss ↦ rw miss (h.0, Rising-delete_where (id r + 1) hi p rs h.1)
  ]

  -- No row with a key below the first one.
  pub by_id_below : (lo hi n : ℕ) (rs : List R) → Rising lo rs hi → n < lo → by_id n rs ≡ none
  unfolding first_where
  by_id_below lo hi n [] h l = refl
  by_id_below lo hi n (r ∷ rs) h l = ground (arith, by_id_below (id r + 1) hi n rs h.1)

  count_where_below :
      (lo hi n : ℕ) (g : R → Bool) (rs : List R)
      → Rising lo rs hi
      → n < lo
      → count_where (at_id n g) rs ≡ 0
  unfolding count_where
  count_where_below lo hi n g [] h l = refl
  count_where_below lo hi n g (r ∷ rs) h l =
      ground (arith, count_where_below (id r + 1) hi n g rs h.1)

  -- The rowcount of a statement on one key is read off the row at that key.
  pub count_where-at_id :
      (lo hi n : ℕ) (g : R → Bool) (rs : List R)
      → Rising lo rs hi
      → count_where (at_id n g) rs ≡ hits g (by_id n rs)
  unfolding count_where first_where
  count_where-at_id lo hi n g [] h = refl
  count_where-at_id lo hi n g (r ∷ rs) h = ground (
    arith,
    count_where-at_id (id r + 1) hi n g rs h.1,
    count_where_below (id r + 1) hi n g rs h.1,
  )

  pub by_id_lt :
      (lo hi n : ℕ) (rs : List R) (r : R) → Rising lo rs hi → by_id n rs ≡ some r → n < hi
  unfolding first_where
  by_id_lt lo hi n [] r h e = cc
  by_id_lt lo hi n (x ∷ rs) r h e =
      ground (arith, by_id_lt (id x + 1) hi n rs r h.1, Rising-le (id x + 1) hi rs h.1)

  -- The row under a key is the only one.
  pub All-above : (lo hi : ℕ) (rs : List R) → Rising lo rs hi → All (λ r. lo ≤ id r) rs
  All-above lo hi [] h = tt
  All-above lo hi (r ∷ rs) h =
      (h.0, All-map _ _ rs (λ x above. omega arith) (All-above (id r + 1) hi rs h.1))

  pub All-by_id :
      (lo hi n : ℕ) (rs : List R) (r : R)
      → Rising lo rs hi
      → by_id n rs ≡ some r
      → All (λ x. id x ≡ n → x ≡ r) rs
  unfolding first_where
  All-by_id lo hi n [] r h e = tt
  All-by_id lo hi n (x ∷ rs) r h e = elim (Bool-cases (id x == n)) [
    | inl hit ↦
        let here : some x ≡ some r = rw hit at e in
        (
          λ _. ground arith,
          All-map _ _ rs (λ y above its_id. absurd (ground arith)) (All-above (id x + 1) hi rs h.1),
        )
    | inr miss ↦
        (λ its_id. absurd (ground arith), All-by_id (id x + 1) hi n rs r h.1 (rw miss at e))
  ]

  -- The next key is fresh, and an inserted row is found under it.
  pub by_id_fresh : (lo hi : ℕ) (rs : List R) → Rising lo rs hi → by_id hi rs ≡ none
  unfolding first_where
  by_id_fresh lo hi [] h = refl
  by_id_fresh lo hi (r ∷ rs) h =
      ground (arith, by_id_fresh (id r + 1) hi rs h.1, Rising-le (id r + 1) hi rs h.1)

  pub by_id-append :
      (n : ℕ) (rs : List R) (r : R) → by_id n rs ≡ none → id r ≡ n → by_id n (rs ++ r ∷ []) ≡ some r
  unfolding first_where
  by_id-append n [] r h e = ground arith
  by_id-append n (x ∷ rs) r h e = ground (arith, by_id-append n rs r)

  pub by_id-append_old :
      (n : ℕ) (rs : List R) (r : R) → id r ≢ n → by_id n (rs ++ r ∷ []) ≡ by_id n rs
  unfolding first_where
  by_id-append_old n [] r e = ground arith
  by_id-append_old n (x ∷ rs) r e = ground (arith, by_id-append_old n rs r e)

  -- With distinct keys, a row that a DELETE leaves was there before.
  pub by_id-delete_where :
      (lo hi n : ℕ) (p : R → Bool) (rs : List R) (r : R)
      → Rising lo rs hi
      → by_id n (delete_where p rs) ≡ some r
      → by_id n rs ≡ some r
  unfolding first_where delete_where
  by_id-delete_where lo hi n p [] r h e = e
  by_id-delete_where lo hi n p (x ∷ rs) r h e =
      ground
        (arith, by_id-delete_where (id x + 1) hi n p rs r h.1, by_id_below (id x + 1) hi n rs h.1)

  -- A clause on one key finds the row at that key, if the row satisfies the rest of the clause.
  pub first_where-at_id :
      (n : ℕ) (g : R → Bool) (rs : List R) (r : R)
      → by_id n rs ≡ some r
      → g r ≡ true
      → first_where (at_id n g) rs ≡ some r
  unfolding first_where
  first_where-at_id n g [] r e k = e
  first_where-at_id n g (x ∷ rs) r e k = ground (arith, first_where-at_id n g rs r)

  module _ (f : R → R) (same : (r : R) → id (f r) ≡ id r) where
    pub Rising-update_where :
        (lo hi : ℕ) (p : R → Bool) (rs : List R)
        → Rising lo rs hi
        → Rising lo (update_where p f rs) hi
    unfolding update_where
    Rising-update_where lo hi p [] h = h
    Rising-update_where lo hi p (r ∷ rs) h = elim (Bool-cases (p r)) [
      | inl hit ↦ rw (hit, same r) (h.0, Rising-update_where (id r + 1) hi p rs h.1)
      | inr miss ↦ rw miss (h.0, Rising-update_where (id r + 1) hi p rs h.1)
    ]

    -- An UPDATE acts on the row of a key by its clause and its assignments, whatever it does to others.
    pub by_id-update_where :
        (n : ℕ) (p : R → Bool) (rs : List R)
        → by_id n (update_where p f rs) ≡ alter p f (by_id n rs)
    unfolding update_where first_where
    by_id-update_where n p [] = refl
    by_id-update_where n p (r ∷ rs) = ground (arith, by_id-update_where n p rs, same r)
