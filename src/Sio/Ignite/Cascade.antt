-- ===== src/Sio/Ignite/Cascade.antt =====
-- The spread of a fire in server/internal/sio/fire_ignite.go.
use hwarr.Base.{
  contains, ℕ, zero, suc, ◌<◌, ◌≤◌, ◌%◌, GoString, List, [], ◌∷◌, Bool, true, false, Option, none,
  some, Result, ok, err, ltb, length, ◌≡◌, ◌⊎◌, inl, inr, refl, sym, ap, arith, Option-cases,
  Result-cases, Bool-cases, ltb→lt, str_iff,
}
use native.Mathlib.Nat.{mod-lt}
use hwarr.Grid.{get_neighbors8, parse_grid_id, neighbor_ids}
use hwarr.Base.Decimal.{ℤ}
use hwarr.Engine.Cleanup.{fire_key, active_grids_key}
use hwarr.Sio.Ignite.{
  FireWriter, FireError, FireRegistration, Landing, cascade, pick, nth, fire_spread_threshold,
  fire_max_cascade_depth, register_fire_event, land, add_event, add_active, add_total, add_day,
  final_count, total_key,
}

nth-contains :
    (xs : List GoString) (i : ℕ) (d : GoString) → i < length xs → contains xs (nth xs i d) ≡ true
nth-contains [] i d h = absurd (omega (arith, h))
nth-contains (x ∷ xs) zero d h = ground (arith, str_iff x x)
nth-contains (x ∷ xs) (suc i) d h = ground (arith, nth-contains xs i d (omega (arith, h)))

length-get_neighbors8 :
    (s : GoString) {ns : List GoString} → get_neighbors8 s ≡ some ns → length ns ≡ 8
unfolding get_neighbors8
length-get_neighbors8 s {ns} h = go (parse_grid_id s) h
  where
    go : (o : Option (ℤ × ℤ)) → neighbor_ids o ≡ some ns → length ns ≡ 8
    go none e = absurd (ground (arith, e))
    go (some (lat, lng)) e = ground (arith, e)

pick-contains :
    (ns : List GoString) (draw : ℕ) (d : GoString)
    → length ns ≡ 8
    → contains ns (pick ns draw d) ≡ true
unfolding pick
pick-contains [] draw d h = absurd (omega (arith, h))
pick-contains (x ∷ xs) draw d h =
    nth-contains (x ∷ xs) (draw % length (x ∷ xs)) d
      (mod-lt draw {m = length (x ∷ xs)} (omega arith))

module _ {R : Type 0} (ops : FireWriter R) (r : R) (now : ℕ) where
  -- A hop goes from a grid whose count has reached the threshold to one of its neighbours.
  abbrev pub IsHop : GoString → GoString → Type 0
  IsHop a b =
      ((count : ℕ) × (ops.z_count r (fire_key a) now ≡ some count)
        × (fire_spread_threshold ≤ count))
      × ((neighbors : List GoString) × (get_neighbors8 a ≡ some neighbors)
          × (contains neighbors b ≡ true))

  -- A path of hops from a grid to another.
  abbrev pub IsPath : GoString → List (GoString × GoString) → GoString → Type 0
  IsPath grid [] landing = grid ≡ landing
  IsPath grid ((a, b) ∷ path) landing = (a ≡ grid) × IsHop a b × IsPath b path landing

  -- The grid has room, or its id has no neighbours.
  abbrev pub IsEnd : GoString → Type 0
  IsEnd grid =
      ((count : ℕ) × (ops.z_count r (fire_key grid) now ≡ some count)
        × (count < fire_spread_threshold))
      ⊎ (get_neighbors8 grid ≡ none)

  -- What a cascade of so many rounds gives.
  abbrev IsCascade : ℕ → GoString → Landing → Type 0
  IsCascade n grid landing =
      IsPath grid landing.1 landing.0
      × (length landing.1 ≤ n)
      × ((length landing.1 ≡ n) ⊎ IsEnd landing.0)

  stops :
      (n : ℕ) (grid : GoString) {landing : Landing}
      → (n ≡ 0) ⊎ IsEnd grid
      → (grid, []) ≡ landing
      → IsCascade n grid landing
  stops n grid (inl z) same = rw (sym same) (refl, omega arith, inl (omega (arith, z)))
  stops n grid (inr e) same = rw (sym same) (refl, omega arith, inr e)

  hops :
      (n : ℕ) (grid next : GoString) {landing rest : Landing}
      → IsHop grid next
      → (rest.0, (grid, next) ∷ rest.1) ≡ landing
      → IsCascade n next rest
      → IsCascade (suc n) grid landing
  hops n grid next {landing} {rest} hop same (path, bound, end) = rw (sym same) (
    (refl, hop, path),
    omega (arith, bound),
    (elim end [ inl e ↦ inl (ap suc e) | inr e ↦ inr e ]),
  )

  spread :
      (draws : ℕ → ℕ) (n : ℕ) (grid : GoString) (count : ℕ) (ns : List GoString) {landing : Landing}
      → ops.z_count r (fire_key grid) now ≡ some count
      → get_neighbors8 grid ≡ some ns
      → ltb count fire_spread_threshold ≡ false
      → ((rest : Landing)
          → cascade ops r now draws n (pick ns (draws n) grid) ≡ ok rest
          → IsCascade n (pick ns (draws n) grid) rest)
      → cascade ops r now draws (suc n) grid ≡ ok landing
      → IsCascade (suc n) grid landing
  unfolding cascade
  spread draws n grid count ns e f l further h =
      let next = pick ns (draws n) grid in
      let hop : IsHop grid next = (
        (count, e, ground (arith, l)),
        (ns, f, pick-contains ns (draws n) grid (length-get_neighbors8 grid f)),
      ) in
      elim (Result-cases (cascade ops r now draws n next)) [
        | inl (rest, k) ↦ hops n grid next hop (ground (arith, e, f, l, k, h)) (further rest k)
        | inr (x, k) ↦ absurd (ground (arith, e, f, l, k, h))
      ]

  cascade-IsCascade :
      (draws : ℕ → ℕ) (n : ℕ) (grid : GoString) {landing : Landing}
      → cascade ops r now draws n grid ≡ ok landing
      → IsCascade n grid landing
  unfolding cascade
  cascade-IsCascade draws zero grid h = stops 0 grid (inl refl) (ground (arith, h))
  cascade-IsCascade draws (suc n) grid {landing} h =
      elim (Option-cases (ops.z_count r (fire_key grid) now)) [
        | inl e ↦ absurd (ground (arith, e, h))
        | inr (count, e) ↦ elim (Option-cases (get_neighbors8 grid)) [
          | inl f ↦ stops (suc n) grid (inr (inr f)) (ground (arith, e, f, h))
          | inr (ns, f) ↦ elim (Bool-cases (ltb count fire_spread_threshold)) [
            | inl l ↦
                stops (suc n) grid (inr (inl (count, e, ltb→lt count fire_spread_threshold l)))
                  (ground (arith, e, f, l, h))
            | inr l ↦
                spread draws n grid count ns e f l
                  (λ rest k. cascade-IsCascade draws n (pick ns (draws n) grid) {landing = rest} k)
                  h
          ]
        ]
      ]

carry :
    {R : Type 0} (ops : FireWriter R) (r : R) (now n : ℕ) (grid : GoString) {l m : Landing}
    → l ≡ m
    → IsCascade ops r now n grid l
    → IsCascade ops r now n grid m
carry ops r now n grid e h = rw (sym e) h

abbrev pub Is : Landing → FireRegistration → Type 0
Is landing reg = landing ≡ (reg.grid_id, reg.spread_path)

module _ {R : Type 0} (ops : FireWriter R) (now : ℕ) (today_key ranking_key member : GoString)
    (landing : Landing) {reg : FireRegistration} where
  final_count-Is :
      (r : R) (o : Option ℕ) → (final_count ops r now landing o).1 ≡ ok reg → Is landing reg
  final_count-Is r none h = absurd (ground (arith, h))
  final_count-Is r (some count) h = ground (arith, h)

  add_day-Is :
      (d : R × Bool)
      → (add_day ops now today_key ranking_key member landing d).1 ≡ ok reg
      → Is landing reg
  add_day-Is (r, false) h = absurd (ground (arith, h))
  add_day-Is (r, true) h = final_count-Is _ _ h

  add_total-Is :
      (d : R × Bool)
      → (add_total ops now today_key ranking_key member landing d).1 ≡ ok reg
      → Is landing reg
  add_total-Is (r, false) h = absurd (ground (arith, h))
  add_total-Is (r, true) h = add_day-Is (ops.incr r today_key) h

  add_active-Is :
      (d : R × Bool)
      → (add_active ops now today_key ranking_key member landing d).1 ≡ ok reg
      → Is landing reg
  add_active-Is (r, false) h = absurd (ground (arith, h))
  add_active-Is (r, true) h = add_total-Is (ops.incr r total_key) h

  pub add_event-Is :
      (d : R × Bool)
      → (add_event ops now today_key ranking_key member landing d).1 ≡ ok reg
      → Is landing reg
  add_event-Is (r, false) h = absurd (ground (arith, h))
  add_event-Is (r, true) h = add_active-Is (ops.s_add r active_grids_key landing.0) h

-- A fire that is registered has spread along at most 8 hops, from the grid that was asked for to
-- the one where it landed, each from a grid whose count had reached 500 to one of its eight
-- neighbours; and after fewer than 8 hops it landed in a grid whose count was below 500 or whose
-- id has no neighbours.
pub register_fire_event-IsPath :
    {R : Type 0} (ops : FireWriter R) (r : R) (now : ℕ) (draws : ℕ → ℕ) (grid event : GoString)
    (expire_at : ℕ) (today : GoString) (member_of : GoString → GoString) {reg : FireRegistration}
    → (register_fire_event ops r now draws grid event expire_at today member_of).1 ≡ ok reg
    → IsPath ops r now grid reg.spread_path reg.grid_id
      × (length reg.spread_path ≤ 8)
      × ((length reg.spread_path ≡ 8) ⊎ IsEnd ops r now reg.grid_id)
unfolding register_fire_event
register_fire_event-IsPath ops r now draws grid event expire_at today member_of {reg} h =
    go (cascade ops r now draws fire_max_cascade_depth grid)
      (λ landing e.
        cascade-IsCascade ops r now draws fire_max_cascade_depth grid {landing = landing} e)
      h
  where
    go :
        (l : Result FireError Landing)
        → ((landing : Landing) → l ≡ ok landing → IsCascade ops r now 8 grid landing)
        → (land ops r now event expire_at today member_of l).1 ≡ ok reg
        → IsCascade ops r now 8 grid (reg.grid_id, reg.spread_path)
    go (err e) c k = absurd (ground (arith, k))
    go (ok landing) c k =
        carry ops r now 8 grid (add_event-Is ops now _ _ _ landing _ k) (c landing refl)
