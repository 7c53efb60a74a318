-- ===== src/GoMap/Laws.antt =====
-- What a lookup gives after each operation on a map.
use hwarr.Base.{[], ◌∷◌, none, some, Comparable, ◌==◌, ◌≡◌, refl, if◌then◌else◌, arith}
use hwarr.GoMap.{GoMap, get, delete, assign}

module _ {ℓ κ} {K : Type ℓ} {V : Type κ} ⦃e : Comparable K⦄ where
  pub get-delete :
      (m : GoMap K V) (k j : K) → get (delete m k) j ≡ (if k == j then none else get m j)
  unfolding get delete
  get-delete [] k j = ground arith
  get-delete ((i, v) ∷ m) k j =
      ground (arith, get-delete m k j, e.equal_iff i k, e.equal_iff i j, e.equal_iff k j)

  pub get-assign :
      (m : GoMap K V) (k j : K) (v : V)
      → get (assign m k v) j ≡ (if k == j then some v else get m j)
  unfolding get assign
  get-assign m k j v = ground (arith, get-delete m k j)

  pub delete_of_none : (m : GoMap K V) (k : K) → get m k ≡ none → delete m k ≡ m
  unfolding get delete
  delete_of_none [] k h = refl
  delete_of_none ((i, v) ∷ m) k h = ground (arith, delete_of_none m k)
