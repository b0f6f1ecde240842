-- ===== src/Table.antt =====
-- The SQL that the durable stores write, on a table kept as the list of its rows in rowid order:
-- SELECT, UPDATE and DELETE with a WHERE clause, COUNT(*), `cursor.rowcount`. A WHERE clause is a
-- Boolean test of a row.
pub mod Rows
pub mod Keyed
pub mod Order
pub mod Members
pub mod Rounds
use hive_os.Base.{
  ℕ, suc, ◌+◌, Bool, Option, none, some, List, [], ◌∷◌, ◌≡◌, refl, if◌then◌else◌, ◌==◌, ◌&&◌,
}

module _ {ℓ} {R : Type ℓ} where
  -- SELECT * FROM t WHERE p
  unfoldable pub select : (R → Bool) → List R → List R
  select p [] = []
  select p (r ∷ rs) = let rest = select p rs in if p r then r ∷ rest else rest

  -- SELECT COUNT(*) FROM t WHERE p; the rowcount of an UPDATE or a DELETE with that clause
  unfoldable pub count_where : (R → Bool) → List R → ℕ
  count_where p [] = 0
  count_where p (r ∷ rs) = let rest = count_where p rs in if p r then suc rest else rest

  -- SELECT * FROM t WHERE p ORDER BY rowid LIMIT 1, with `fetchone`
  unfoldable pub first_where : (R → Bool) → List R → Option R
  first_where p [] = none
  first_where p (r ∷ rs) = let rest = first_where p rs in if p r then some r else rest

  -- UPDATE t SET f WHERE p
  unfoldable pub update_where : (R → Bool) → (R → R) → List R → List R
  update_where p f [] = []
  update_where p f (r ∷ rs) = (if p r then f r else r) ∷ update_where p f rs

  -- DELETE FROM t WHERE p
  unfoldable pub delete_where : (R → Bool) → List R → List R
  delete_where p [] = []
  delete_where p (r ∷ rs) = let rest = delete_where p rs in if p r then rest else r ∷ rest
