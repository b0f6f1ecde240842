-- ===== src/Agents/Delegations/Ancestors.antt =====
-- The climb along the ancestors ends: a table has no more rows than the climb has rounds.
use hive_os.Base.{
  ℕ, zero, suc, ◌+◌, ◌≤◌, ◌<◌, String, Bool, true, false, not, some, List, [], ◌∷◌, ◌≡◌, refl, inl,
  inr, Bool-cases, Option-cases, arith, str_eq, str_eq_iff, length,
}
use hive_os.Table.{count_where, first_where}
use hive_os.Agents.Delegations.{
  running, state_eq, Delegation, Ledger, has_id, is_in, grant_is_active, climb,
  ancestors_authorized, parent_of,
}

-- The rows that a climb has not seen.
abbrev pub unseen : List String → Delegation → Bool
unseen seen d = not (is_in d.id seen)

unseen-cons :
    (seen : List String) (id : String) (rows : List Delegation)
    → count_where (unseen (id ∷ seen)) rows ≤ count_where (unseen seen) rows
unfolding count_where is_in
unseen-cons seen id [] = omega arith
unseen-cons seen id (d ∷ rows) = ground (arith, unseen-cons seen id rows)

unseen-found :
    (seen : List String) (id : String) (rows : List Delegation) (d : Delegation)
    → is_in id seen ≡ false
    → first_where (has_id id) rows ≡ some d
    → count_where (unseen (id ∷ seen)) rows < count_where (unseen seen) rows
unfolding count_where is_in first_where
unseen-found seen id [] d new found = cc
unseen-found seen id (x ∷ rows) d new found = elim (Bool-cases (str_eq x.id id)) [
  | inl hit ↦
      let same : x.id ≡ id = (str_eq_iff x.id id).0 hit in
      let fresh : is_in x.id seen ≡ false = rw same new in ground (arith, unseen-cons seen id rows)
  | inr miss ↦ ground (arith, unseen-found seen id rows d new (rw (miss, first_where) at found))
]

-- A grant that is active leaves the ledger alone.
grant_is_active-true :
    (now : ℕ) (d : Delegation) (l : Ledger)
    → (grant_is_active now d l).1 ≡ true
    → (grant_is_active now d l).0 ≡ l
unfolding grant_is_active
grant_is_active-true now d l ok = grind arith

climb_enough :
    (fuel now : ℕ) (seen : List String) (parent : String) (l : Ledger)
    → count_where (unseen seen) l.delegations < fuel
    → (answer : Ledger × Bool) × ((extra : ℕ)
        → climb (fuel + extra) now seen parent l ≡ some answer)
unfolding climb
climb_enough zero now seen parent l enough = absurd (omega arith)
climb_enough (suc fuel) now seen parent l enough = elim (Bool-cases (str_eq parent "")) [
  | inl top ↦ ((l, true), λ extra. rw (round extra, climb, top) refl)
  | inr more ↦ elim (Bool-cases (is_in parent seen)) [
    | inl old ↦ ((l, false), λ extra. rw (round extra, climb, more, old) refl)
    | inr new ↦ elim (Option-cases (first_where (has_id parent) l.delegations)) [
      | inl gone ↦ ((l, false), λ extra. rw (round extra, climb, more, new, gone) refl)
      | inr (d, found) ↦ elim (Bool-cases (state_eq d.state running)) [
        | inr stopped ↦
            ((l, false), λ extra. rw (round extra, climb, more, new, found, stopped) refl)
        | inl going ↦ elim (Bool-cases (grant_is_active now d l).1) [
          | inr refused ↦ (
            ((grant_is_active now d l).0, false),
            λ extra. rw (round extra, climb, more, new, found, going, refused) refl,
          )
          | inl granted ↦
              let kept : (grant_is_active now d l).0 ≡ l = grant_is_active-true now d l granted in
              let less = unseen-found seen parent l.delegations d new found in
              let next =
                climb_enough fuel now (parent ∷ seen) d.parent_delegation_id l (omega arith) in
              (
                next.0,
                λ extra.
                    rw (round extra, climb, more, new, found, going, granted, kept) (next.1 extra),
              )
        ]
      ]
    ]
  ]
]
  where
    round : (extra : ℕ) → suc fuel + extra ≡ suc (fuel + extra)
    round extra = omega arith

count_where_le_length :
    (p : Delegation → Bool) (rows : List Delegation) → count_where p rows ≤ length rows
unfolding count_where
count_where_le_length p [] = omega arith
count_where_le_length p (d ∷ rows) = ground (arith, count_where_le_length p rows)

-- The loop along the ancestors ends by its own tests, cycles included: it does not run out of the rounds that it is
-- given, two more than there are rows, nor out of any larger number, and then it always has the ledger and the answer
-- of `_ancestors_authorized`.
pub ancestors_decided :
    (extra now : ℕ) (id : String) (l : Ledger)
    → climb (suc (suc (length l.delegations)) + extra) now (id ∷ []) (parent_of id l) l
      ≡ some (ancestors_authorized now id l)
unfolding ancestors_authorized
ancestors_decided extra now id l =
    let rounds = suc (suc (length l.delegations)) in
    let small = count_where_le_length (unseen (id ∷ [])) l.delegations in
    let found = climb_enough rounds now (id ∷ []) (parent_of id l) l (omega arith) in
    let none_left : rounds + 0 ≡ rounds = omega arith in
    let exact : climb rounds now (id ∷ []) (parent_of id l) l ≡ some found.0 =
      rw none_left at (found.1 0) in
    rw exact (found.1 extra)
