-- ===== src/Core/Deployments/Paging.antt =====
-- The pages of the recovery candidates: `iter_gateway_recovery_candidates` in
-- src/hive/core/deployment_ledger.py.
use hive_os.Base.{
  some, ℕ, zero, suc, ◌+◌, ◌≤◌, ◌<◌, String, true, List, [], ◌∷◌, ◌++◌, ◌≡◌, refl, ap, ◌∙◌, ◌⊎◌,
  inl, inr, ◌&&◌, leb, take, drop, length, arith,
}
use hive_os.Core.Deployments.{DeployRecord, Ledger, returned}
use hive_os.Core.Deployments.Checks.{is_key, is_scope}
use hive_os.Core.Deployments.Reads.{candidates, pages, iter_gateway_recovery_candidates}

take-drop : (n : ℕ) (xs : List DeployRecord) → take n xs ++ drop n xs ≡ xs
take-drop zero xs = refl
take-drop (suc n) [] = refl
take-drop (suc n) (x ∷ xs) = ap (λ t. x ∷ t) (take-drop n xs)

drop-drop : (m n : ℕ) (xs : List DeployRecord) → drop (m + n) xs ≡ drop n (drop m xs)
drop-drop zero n xs = let e : 0 + n ≡ n = omega arith in rw e refl
drop-drop (suc m) zero [] = let e : suc m + 0 ≡ suc m = omega arith in rw e refl
drop-drop (suc m) (suc n) [] = let e : suc m + suc n ≡ suc (m + suc n) = omega arith in rw e refl
drop-drop (suc m) n (x ∷ xs) =
    let e : suc m + n ≡ suc (m + n) = omega arith in rw e (drop-drop m n xs)

drop-length : (n : ℕ) (xs : List DeployRecord) → drop (length (take n xs)) xs ≡ drop n xs
drop-length zero xs = refl
drop-length (suc n) [] = refl
drop-length (suc n) (x ∷ xs) = drop-length n xs

length-drop_le : (n : ℕ) (xs : List DeployRecord) → length (drop n xs) ≤ length xs
length-drop_le zero xs = omega arith
length-drop_le (suc n) [] = omega arith
length-drop_le (suc n) (x ∷ xs) = omega (arith, length-drop_le n xs)

List-cases :
    (xs : List DeployRecord)
    → (xs ≡ []) ⊎ ((x : DeployRecord) × (ys : List DeployRecord) × (xs ≡ x ∷ ys))
List-cases [] = inl refl
List-cases (x ∷ xs) = inr (x, xs, refl)

pages-drop :
    (left size offset : ℕ) (rows : List DeployRecord)
    → length (drop offset rows) < left
    → pages left (suc size) offset rows ≡ some (drop offset rows)
unfolding pages
pages-drop zero size offset rows enough = absurd (omega arith)
pages-drop (suc left) size offset rows enough = elim (List-cases (drop offset rows)) [
  | inl over ↦ rw (over, pages) refl
  | inr (x, ys, more) ↦
      let next : drop (offset + suc (length (take size ys))) rows ≡ drop size ys =
        drop-drop offset (suc (length (take size ys))) rows ∙ (rw more (drop-length size ys)) in
      let fewer : length (drop (offset + suc (length (take size ys))) rows) < left = rw next (
        let size_here : length (drop offset rows) ≡ suc (length ys) = rw more refl in
        omega (arith, enough, size_here, length-drop_le size ys)) in
      let rest = pages-drop left size (offset + suc (length (take size ys))) rows fewer in
      rw (more, pages, more, rest, next) (ap (λ t. some (x ∷ t)) (take-drop size ys))
]

-- For a valid host, scope and page size the loop over the pages yields every candidate, once and in the order of
-- the query, and it ends at its empty page: it does not run out of the rounds that it is given, one more than there are
-- candidates, nor out of any larger number, and then it always yields the same.
pub pages_complete :
    (host scope : String) (page_size extra : ℕ) (l : Ledger)
    → is_key host ≡ true
    → is_scope scope ≡ true
    → leb 1 page_size && leb page_size 32 ≡ true
    → (iter_gateway_recovery_candidates host scope page_size l
        ≡ some (returned (candidates host scope l)))
      × (pages
            (suc (length (candidates host scope l)) + extra)
            page_size
            0
            (candidates host scope l)
          ≡ some (candidates host scope l))
unfolding iter_gateway_recovery_candidates
pages_complete host scope zero extra l key scoped sized = absurd cc
pages_complete host scope (suc n) extra l key scoped sized =
    let all = candidates host scope l in
    (
      rw (key, scoped, sized, pages-drop (suc (length all)) n 0 all (omega arith)) refl,
      pages-drop (suc (length all) + extra) n 0 all (omega arith),
    )
