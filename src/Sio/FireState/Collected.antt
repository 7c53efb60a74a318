-- ===== src/Sio/FireState/Collected.antt =====
-- Which grids the handlers of server/internal/sio/fire_state.go, get_fires_compat.go and
-- subscribe_viewport.go tell of.
use hwarr.Base.{
  contains, ℕ, ◌<◌, GoString, List, [], ◌∷◌, Bool, true, false, ◌&&◌, ◌||◌, Option, some, ◌==◌,
  str_eq, nat_eq, nat_beq_iff, str_iff, ◌≡◌, ◌↔◌, arith, Option-cases, inl, inr,
}
use hwarr.Sio.FireState.{collect}

-- Whether a grid is listed with a count.
abbrev pub has_entry : List (GoString × ℕ) → GoString → ℕ → Bool
has_entry [] g n = false
has_entry ((grid, count) ∷ rest) g n = (grid == g && count == n) || has_entry rest g n

-- A list of fires holds a grid with a count exactly if the grid is one of those gone through, its
-- count could be read and is that one, and it is at least 1: grids whose count fails are left out
-- and the others are still listed.
pub collect_iff :
    (counts : GoString → Option ℕ) (grids : List GoString) (g : GoString) (n : ℕ)
    → (has_entry (collect counts grids) g n ≡ true)
      ↔ ((contains grids g ≡ true) × (counts g ≡ some n) × (0 < n))
unfolding collect
collect_iff counts [] g n = ground arith
collect_iff counts (grid ∷ grids) g n = elim (Option-cases (counts grid)) [
  | inl e ↦ rw e (ground (arith, e, str_iff grid g, collect_iff counts grids g n))
  | inr (count, e) ↦
      rw e (ground (arith, e, str_iff grid g, nat_beq_iff count n, collect_iff counts grids g n))
]
