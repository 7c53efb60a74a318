-- ===== src/Engine/Progression/Examples.antt =====
-- A scan on which the theorems about server/internal/engine/fire_progression.go are applied.
use hwarr.Base.{
  contains, ℕ, GoString, List, [], ◌∷◌, codes, Option, none, some, if◌then◌else◌, true, ◌≡◌, refl,
  str_eq, str_beq, ◌==◌,
}
use hwarr.Model.Fire.{get_stage}
use hwarr.Engine.Progression.{new_engine, get_grid_stage, scan_and_update_stages}
use hwarr.Engine.Progression.Scan.{scan_and_update_stages_settles}

abbrev grids : List GoString
grids = codes "g1" ∷ codes "g2" ∷ []

-- The first grid burns, the second could not be counted.
abbrev counts : GoString → Option ℕ
counts g = if g == codes "g1" then some 130 else none

g1_active : contains grids (codes "g1") ≡ true
unfolding str_beq
g1_active = refl

g1_counted : counts (codes "g1") ≡ some 130
unfolding str_beq
g1_counted = refl

scan_and_update_stages_settles_example :
    get_grid_stage (scan_and_update_stages new_engine (some grids) counts).0.engine (codes "g1")
    ≡ get_stage 130
scan_and_update_stages_settles_example =
    scan_and_update_stages_settles new_engine grids counts (codes "g1") 130 g1_active g1_counted
