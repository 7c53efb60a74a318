-- ===== src/Engine/Cleanup/Examples.antt =====
-- A pass over a small store, on which the theorems about server/internal/engine/cleanup.go are
-- applied.
use hwarr.Base.{
  ℕ, GoString, codes, [], ◌∷◌, true, none, some, str_eq, nat_eq, str_beq, ◌≡◌, refl, arith,
}
use hwarr.GoMap.{get}
use hwarr.Engine.Cleanup.{Pass, active_grids_key, fire_key, run_cleanup, clean_each}
use hwarr.Engine.Cleanup.Laws.{above}
use hwarr.Engine.Cleanup.Kept.{run_cleanup-keeps}
use hwarr.Engine.Cleanup.Cleaned.{run_cleanup-cleans}
use hwarr.Engine.Cleanup.Store.{Store, store_ops, store_view, store_laws, store-IsReliable}

-- One grid with an event that expires at 50.
abbrev burning : Store
burning = record {
  events = (codes "fire:g1", (codes "e1", 50)) ∷ [];
  sets = (codes "active_grids", codes "g1") ∷ [];
}

abbrev after_pass : ℕ → Pass Store
after_pass now =
    clean_each store_ops (record { redis = burning; tracker = none; cleaned = 0 }) now
      (codes "g1" ∷ [])

burning_pass : (now : ℕ) → run_cleanup store_ops burning none now ≡ some (after_pass now)
unfolding run_cleanup get str_beq
burning_pass now = refl

event_there : store_view.score burning (fire_key (codes "g1")) (codes "e1") ≡ some 50
unfolding get str_beq
event_there = refl

grid_listed : store_view.listed burning active_grids_key (codes "g1") ≡ true
unfolding get str_beq
grid_listed = refl

run_cleanup-keeps_example :
    (store_view.score (after_pass 20).redis (fire_key (codes "g1")) (codes "e1") ≡ some 50)
    × (store_view.listed (after_pass 20).redis active_grids_key (codes "g1") ≡ true)
run_cleanup-keeps_example =
    run_cleanup-keeps store_ops store_view store_laws (codes "g1") (codes "e1") 50 20 (omega arith)
      burning none {p = after_pass 20} (burning_pass 20) event_there grid_listed

run_cleanup-cleans_example :
    ((member : GoString)
      → store_view.score (after_pass 70).redis (fire_key (codes "g1")) member
        ≡ above 70 (store_view.score (after_pass 70).redis (fire_key (codes "g1")) member))
    × (¬ (
        (store_view.listed (after_pass 70).redis active_grids_key (codes "g1") ≡ true)
        × ((member : GoString)
            → store_view.score (after_pass 70).redis (fire_key (codes "g1")) member ≡ none)))
run_cleanup-cleans_example =
    run_cleanup-cleans store_ops store_view store_laws (codes "g1") 70 store-IsReliable burning none
      {p = after_pass 70} (burning_pass 70) grid_listed
