-- ===== src/Sio/FireState/Examples.antt =====
-- A test of the list of fires.
use hwarr.Base.{
  ℕ, GoString, codes, List, [], ◌∷◌, Option, none, some, if◌then◌else◌, ◌==◌, str_eq, ◌≡◌, refl,
  str_beq,
}
use hwarr.Sio.FireState.{collect}

-- The count of one grid fails, and another has no fire.
abbrev counts : GoString → Option ℕ
counts g = if g == codes "1:1" then none else if g == codes "2:2" then some 0 else some 7

abbrev grids : List GoString
grids = codes "1:1" ∷ codes "2:2" ∷ codes "3:3" ∷ []

collect_counts : collect counts grids ≡ (codes "3:3", 7) ∷ []
unfolding collect str_beq
collect_counts = refl
