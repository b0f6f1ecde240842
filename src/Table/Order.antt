-- ===== src/Table/Order.antt =====
-- ORDER BY: an insertion sort that keeps rows with equal keys in rowid order.
use hive_os.Base.{Bool, List, [], ◌∷◌, if◌then◌else◌}

module _ {ℓ} {R : Type ℓ} (before : R → R → Bool) where
  unfoldable pub insert_by : R → List R → List R
  insert_by r [] = r ∷ []
  insert_by r (s ∷ ss) = let rest = insert_by r ss in if before s r then s ∷ rest else r ∷ s ∷ ss

  unfoldable pub order_by : List R → List R
  unfolding insert_by
  order_by [] = []
  order_by (r ∷ rs) = insert_by r (order_by rs)
