-- ===== src/GoMap.antt =====
-- Go's `map[K]V`, as an association list. Go fixes no order of iteration: a loop over a map is a
-- loop over the list, and the theorems hold for lists in any order.
pub mod Laws
pub mod Size
use hwarr.Base.{
  Bool, List, [], ◌∷◌, Option, none, some, Comparable, ◌==◌, ℕ, length, ◌≡◌, if◌then◌else◌, is_some,
}

abbrev pub GoMap {ℓ κ} : Type ℓ → Type κ → Type (ℓ ⊔ κ)
GoMap K V = List (K × V)

abbrev pub len {ℓ κ} : {K : Type ℓ} {V : Type κ} → GoMap K V → ℕ
len m = length m

abbrev pub keys {ℓ κ} : {K : Type ℓ} {V : Type κ} → GoMap K V → List K
keys [] = []
keys ((k, v) ∷ m) = k ∷ keys m

module _ {ℓ κ} {K : Type ℓ} {V : Type κ} ⦃e : Comparable K⦄ where
  -- v, ok := m[k]
  unfoldable pub get : GoMap K V → K → Option V
  get [] k = none
  get ((j, v) ∷ m) k = if j == k then some v else get m k

  -- delete(m, k)
  unfoldable pub delete : GoMap K V → K → GoMap K V
  delete [] k = []
  delete ((j, v) ∷ m) k = let rest = delete m k in if j == k then rest else (j, v) ∷ rest

  -- m[k] = v
  unfoldable pub assign : GoMap K V → K → V → GoMap K V
  unfolding delete
  assign m k v = (k, v) ∷ delete m k

  -- _, ok := m[k]
  abbrev pub has : GoMap K V → K → Bool
  has m k = is_some (get m k)

  -- A Go map holds a key once.
  abbrev pub Distinct : GoMap K V → Type κ
  Distinct [] = Unit
  Distinct ((k, v) ∷ m) = (get m k ≡ none) × Distinct m
