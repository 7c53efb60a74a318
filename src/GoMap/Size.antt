-- ===== src/GoMap/Size.antt =====
-- The number of entries of a map that holds each key once.
use hwarr.Base.{[], ◌∷◌, Comparable, ◌≡◌, arith, ◌+◌, if◌then◌else◌}
use hwarr.GoMap.{GoMap, get, delete, assign, Distinct, len, has}
use hwarr.GoMap.Laws.{get-delete, delete_of_none}

module _ {ℓ κ} {K : Type ℓ} {V : Type κ} ⦃e : Comparable K⦄ where
  pub delete-Distinct : (m : GoMap K V) (k : K) → Distinct m → Distinct (delete m k)
  unfolding delete
  delete-Distinct [] k d = tt
  delete-Distinct ((i, v) ∷ m) k d =
      ground (arith, delete-Distinct m k d.1, get-delete m k i, e.equal_iff k i, e.equal_iff i k)

  pub assign-Distinct : (m : GoMap K V) (k : K) (v : V) → Distinct m → Distinct (assign m k v)
  unfolding assign
  assign-Distinct m k v d = ground (arith, delete-Distinct m k d, get-delete m k k, e.equal_iff k k)

  pub len-delete :
      (m : GoMap K V) (k : K) → Distinct m → len (delete m k) + (if has m k then 1 else 0) ≡ len m
  unfolding get delete
  len-delete [] k d = omega arith
  len-delete ((i, v) ∷ m) k d =
      ground (arith, len-delete m k d.1, e.equal_iff i k, delete_of_none m k)

  pub len-assign :
      (m : GoMap K V) (k : K) (v : V)
      → Distinct m
      → len (assign m k v) ≡ len m + (if has m k then 0 else 1)
  unfolding assign
  len-assign m k v d = ground (arith, len-delete m k d)
