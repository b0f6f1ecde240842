-- ===== src/Table/Members.antt =====
-- The rows of a table as its members, and the rows that share a key.
use hive_os.Base.{
  ◌≤◌, String, Bool, true, false, some, List, [], ◌∷◌, ◌++◌, ◌≡◌, refl, ap, sym, ◌⊎◌, inl, inr,
  Bool-cases, arith, str_eq, str_eq_iff, All, All-map, if◌then◌else◌,
}
use hive_os.Table.{select, count_where, first_where, update_where}
use hive_os.Table.Order.{insert_by, order_by}
use hive_os.Table.Rows.{count_where_zero_All, count_where-append}

module _ {ℓ κ μ} {R : Type ℓ} (P : R → Type κ) (S : R → Type μ) (p : R → Bool) (f : R → R) where
  pub All-updated :
      (rs : List R)
      → ((r : R) → P r → S (if p r then f r else r))
      → All P rs
      → All S (update_where p f rs)
  unfolding update_where
  All-updated [] step h = tt
  All-updated (r ∷ rs) step h = (step r h.0, All-updated rs step h.1)

module _ {ℓ κ μ ν} {R : Type ℓ} (P : R → Type κ) (Q : R → Type μ) (S : R → Type ν) where
  pub All-pair : (rs : List R) → ((r : R) → P r → Q r → S r) → All P rs → All Q rs → All S rs
  All-pair [] f h k = tt
  All-pair (r ∷ rs) f h k = (f r h.0 k.0, All-pair rs f h.1 k.1)

module _ {R : Type 0} where
  abbrev pub Among : R → List R → Type 0
  Among r [] = ⊥
  Among r (x ∷ xs) = (r ≡ x) ⊎ Among r xs

  pub first_where-Among :
      (p : R → Bool) (rs : List R) (r : R) → first_where p rs ≡ some r → Among r rs
  unfolding first_where
  first_where-Among p [] r e = cc
  first_where-Among p (x ∷ rs) r e = elim (Bool-cases (p x)) [
    | inl hit ↦ let e' : some x ≡ some r = rw hit at e in inl cc
    | inr miss ↦ inr (first_where-Among p rs r (rw miss at e))
  ]

  pub Among-select :
      (p : R → Bool) (rs : List R) (r : R) → Among r (select p rs) → Among r rs × (p r ≡ true)
  unfolding select
  Among-select p [] r m = absurd m
  Among-select p (x ∷ rs) r m = elim (Bool-cases (p x)) [
    | inl hit ↦ elim (rw hit at m) [
      | inl here ↦ (inl here, rw here hit)
      | inr there ↦ let k = Among-select p rs r there in (inr k.0, k.1)
    ]
    | inr miss ↦ let k = Among-select p rs r (rw miss at m) in (inr k.0, k.1)
  ]

  insert_by-Among :
      (before : R → R → Bool) (x : R) (rs : List R) (r : R)
      → Among r (insert_by before x rs)
      → (r ≡ x) ⊎ Among r rs
  unfolding insert_by
  insert_by-Among before x [] r m = m
  insert_by-Among before x (s ∷ rs) r m = elim (Bool-cases (before s x)) [
    | inl later ↦ elim (rw later at m) [
      | inl here ↦ inr (inl here)
      | inr there ↦ elim (insert_by-Among before x rs r there) [
        | inl own ↦ inl own
        | inr old ↦ inr (inr old)
      ]
    ]
    | inr first ↦ rw first at m
  ]

  pub Among-order_by :
      (before : R → R → Bool) (rs : List R) (r : R) → Among r (order_by before rs) → Among r rs
  unfolding order_by
  Among-order_by before [] r m = m
  Among-order_by before (x ∷ rs) r m = elim (insert_by-Among before x (order_by before rs) r m) [
    | inl here ↦ inl here
    | inr there ↦ inr (Among-order_by before rs r there)
  ]

  pub All-Among {κ} : (P : R → Type κ) (rs : List R) (r : R) → All P rs → Among r rs → P r
  All-Among P [] r h m = absurd m
  All-Among P (x ∷ rs) r h (inl here) = rw here h.0
  All-Among P (x ∷ rs) r h (inr there) = All-Among P rs r h.1 there

  -- A row whose key is in the table once is the only row with that key.
  pub Among-only :
      (key : R → String) (rs : List R) (r : R)
      → count_where (λ x. str_eq (key x) (key r)) rs ≤ 1
      → Among r rs
      → All (λ x. str_eq (key x) (key r) ≡ true → x ≡ r) rs
  unfolding count_where
  Among-only key [] r once m = tt
  Among-only key (x ∷ rs) r once (inl here) =
      let same : str_eq (key x) (key r) ≡ true =
        (str_eq_iff (key x) (key r)).1 (ap key (sym here)) in
      (
        λ hit. sym here,
        All-map _ _ rs (λ y off hit. absurd cc)
            (count_where_zero_All (λ y. true) (λ y. str_eq (key y) (key r)) rs (ground arith)),
      )
  Among-only key (x ∷ rs) r once (inr there) = elim (Bool-cases (str_eq (key x) (key r))) [
    | inr miss ↦ (λ hit. absurd cc, Among-only key rs r (ground arith) there)
    | inl hit ↦
        let off =
          count_where_zero_All (λ y. true) (λ y. str_eq (key y) (key r)) rs (ground arith) in
        let own : str_eq (key r) (key r) ≡ false =
          All-Among (λ y. str_eq (key y) (key r) ≡ false) rs r off there in
        let on = (str_eq_iff (key r) (key r)).1 refl in absurd cc
  ]

-- A new row under a clause that depends on one text of the row.
pub one_more :
    {R : Type 0} (clause : String → R → Bool) (rs : List R) (r : R) (own key : String)
    → (clause key r ≡ true → own ≡ key)
    → count_where (clause own) rs ≡ 0
    → count_where (clause key) rs ≤ 1
    → count_where (clause key) (rs ++ r ∷ []) ≤ 1
unfolding count_where
one_more clause rs r own key only fresh before = elim (Bool-cases (clause key r)) [
  | inl hit ↦
      let none_yet : count_where (clause key) rs ≡ 0 = rw (← only hit) fresh in
      ground (arith, count_where-append (clause key) rs (r ∷ []))
  | inr miss ↦ ground (arith, count_where-append (clause key) rs (r ∷ []))
]
