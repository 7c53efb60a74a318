-- ===== src/Grid/Ids.antt =====
-- Grid ids of server/internal/grid/grid.go, printed and parsed.
use hwarr.Base.{
  zero, suc, ◌≤◌, GoString, List, [], ◌∷◌, true, some, is_some, ◌≡◌, refl, ap, ap₂, ◌∙◌, arith, All,
}
use hwarr.Base.Decimal.{
  ℤ, pos, negsuc, itoa, atoi, max_int, atoi-itoa, atoi-minus_itoa, itoa-IsDigits, IsDigits,
}
use hwarr.Base.Split.{split_once-append, Lacks}
use hwarr.Grid.{
  print_int, grid_id, next_int, prev_int, parse_parts, both, parse_grid_id, around, ids,
  neighbor_ids, get_neighbors8,
}

-- A 64-bit int
abbrev pub IsInt : ℤ → Type 0
IsInt (pos n) = n ≤ max_int
IsInt (negsuc n) = n ≤ max_int

IsDigits-Lacks : (s : GoString) → IsDigits s → Lacks b':' s
IsDigits-Lacks [] h = tt
IsDigits-Lacks (c ∷ s) h = (λ e. ground (arith, e, h.0), IsDigits-Lacks s h.1)

print_int-Lacks : (i : ℤ) → Lacks b':' (print_int i)
unfolding print_int
print_int-Lacks (pos n) = IsDigits-Lacks (itoa n) (itoa-IsDigits n)
print_int-Lacks (negsuc n) =
    (λ e. ground (arith, e), IsDigits-Lacks (itoa (suc n)) (itoa-IsDigits (suc n)))

atoi-print_int : (i : ℤ) → IsInt i → atoi (print_int i) ≡ some i
unfolding print_int
atoi-print_int (pos n) h = atoi-itoa n h
atoi-print_int (negsuc n) h = atoi-minus_itoa n h

-- A grid id is parsed to the two ints of which it is printed.
pub parse_grid_id-grid_id :
    (lat lng : ℤ) → IsInt lat → IsInt lng → parse_grid_id (grid_id lat lng) ≡ some (lat, lng)
unfolding parse_grid_id grid_id
parse_grid_id-grid_id lat lng h k =
    ap parse_parts (split_once-append (print_int lat) (print_int lng) b':' (print_int-Lacks lat))
    ∙ ap₂ both (atoi-print_int lat h) (atoi-print_int lng k)

next_int-IsInt : (i : ℤ) → IsInt i → IsInt (next_int i)
unfolding next_int
next_int-IsInt (pos n) h = ground arith
next_int-IsInt (negsuc zero) h = omega arith
next_int-IsInt (negsuc (suc n)) h = omega arith

prev_int-IsInt : (i : ℤ) → IsInt i → IsInt (prev_int i)
unfolding prev_int
prev_int-IsInt (pos zero) h = omega arith
prev_int-IsInt (pos (suc n)) h = omega arith
prev_int-IsInt (negsuc n) h = ground arith

get_neighbors8-grid_id :
    (lat lng : ℤ)
    → IsInt lat
    → IsInt lng
    → get_neighbors8 (grid_id lat lng) ≡ some (ids (around lat lng))
unfolding get_neighbors8
get_neighbors8-grid_id lat lng h k = ap neighbor_ids (parse_grid_id-grid_id lat lng h k)

-- The id of a grid has neighbours.
abbrev pub HasNeighbors : GoString → Type 0
HasNeighbors s = is_some (get_neighbors8 s) ≡ true

grid_id-HasNeighbors : (lat lng : ℤ) → IsInt lat → IsInt lng → HasNeighbors (grid_id lat lng)
grid_id-HasNeighbors lat lng h k = rw (get_neighbors8-grid_id lat lng h k) refl

ids-HasNeighbors :
    (l : List (ℤ × ℤ)) → All (λ p. IsInt p.0 × IsInt p.1) l → All HasNeighbors (ids l)
ids-HasNeighbors [] h = tt
ids-HasNeighbors ((lat, lng) ∷ l) h =
    (grid_id-HasNeighbors lat lng h.0.0 h.0.1, ids-HasNeighbors l h.1)

-- The neighbours of the grid of two ints are the ids of the eight pairs around it, and each of them
-- is the id of a grid that has neighbours itself.
pub get_neighbors8_lem :
    (lat lng : ℤ)
    → IsInt lat
    → IsInt lng
    → (get_neighbors8 (grid_id lat lng) ≡ some (ids (around lat lng)))
      × All HasNeighbors (ids (around lat lng))
get_neighbors8_lem lat lng h k =
    let up = next_int-IsInt lat h in
    let down = prev_int-IsInt lat h in
    let right = next_int-IsInt lng k in
    let left = prev_int-IsInt lng k in
    (
      get_neighbors8-grid_id lat lng h k,
      ids-HasNeighbors (around lat lng) (
        (down, left),
        (
          (down, k),
          ((down, right), ((h, left), ((h, right), ((up, left), ((up, k), ((up, right), tt)))))),
        ),
      ),
    )
