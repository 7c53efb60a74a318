-- ===== src/Grid.antt =====
-- The grid ids of server/internal/grid/grid.go: two ints with a colon between. Conversions from and
-- to coordinates are on floats, and are parameters where they are used.
pub mod Ids
use hwarr.Base.{
  zero, suc, GoString, List, [], ◌∷◌, ◌++◌, Option, none, some, nat_beq, if◌then◌else◌,
}
use hwarr.Base.Split.{split_once}
use hwarr.Base.Decimal.{ℤ, pos, negsuc, itoa, atoi, max_int}

-- fmt.Sprintf("%d", i)
unfoldable pub print_int : ℤ → GoString
unfolding itoa
print_int (pos n) = itoa n
print_int (negsuc n) = b'-' ∷ itoa (suc n)

unfoldable pub grid_id : ℤ → ℤ → GoString
unfolding print_int
grid_id lat lng = print_int lat ++ (b':' ∷ print_int lng)

-- i + 1 and i - 1 on a 64-bit int
unfoldable pub next_int : ℤ → ℤ
next_int (pos n) = if nat_beq n max_int then negsuc max_int else pos (suc n)
next_int (negsuc zero) = pos 0
next_int (negsuc (suc n)) = negsuc n

unfoldable pub prev_int : ℤ → ℤ
prev_int (pos zero) = negsuc 0
prev_int (pos (suc n)) = pos n
prev_int (negsuc n) = if nat_beq n max_int then pos max_int else negsuc (suc n)

abbrev pub both : Option ℤ → Option ℤ → Option (ℤ × ℤ)
both none lng = none
both (some lat) none = none
both (some lat) (some lng) = some (lat, lng)

abbrev pub parse_parts : Option (GoString × GoString) → Option (ℤ × ℤ)
parse_parts none = none
parse_parts (some (left, right)) = both (atoi left) (atoi right)

-- The parsing that GridIDToCenter and GetNeighbors8 share.
unfoldable pub parse_grid_id : GoString → Option (ℤ × ℤ)
unfolding split_once atoi
parse_grid_id s = parse_parts (split_once s b':')

-- The two loops of GetNeighbors8, the middle left out.
abbrev pub around : ℤ → ℤ → List (ℤ × ℤ)
around lat lng =
    (prev_int lat, prev_int lng)
    ∷ (prev_int lat, lng)
    ∷ (prev_int lat, next_int lng)
    ∷ (lat, prev_int lng)
    ∷ (lat, next_int lng)
    ∷ (next_int lat, prev_int lng)
    ∷ (next_int lat, lng)
    ∷ (next_int lat, next_int lng)
    ∷ []

abbrev pub ids : List (ℤ × ℤ) → List GoString
ids [] = []
ids ((lat, lng) ∷ rest) = grid_id lat lng ∷ ids rest

abbrev pub neighbor_ids : Option (ℤ × ℤ) → Option (List GoString)
neighbor_ids none = none
neighbor_ids (some (lat, lng)) = some (ids (around lat lng))

unfoldable pub get_neighbors8 : GoString → Option (List GoString)
unfolding parse_grid_id prev_int next_int grid_id
get_neighbors8 s = neighbor_ids (parse_grid_id s)
