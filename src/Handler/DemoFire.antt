-- ===== src/Handler/DemoFire.antt =====
-- registerFire of server/internal/handler/demo_fire.go, with pickDemoLocation and formatIDs of
-- demo_location.go. Redis is the parameter of the ignition handler; what an operation's error says
-- is left out. The table of locations, the clock and what is drawn at random are arguments.
pub mod Agreement
mod Examples
use hwarr.Base.{
  ℕ, zero, suc, ◌+◌, GoString, codes, List, [], ◌∷◌, ◌++◌, Bool, true, false, Option, none, some,
  Result, ok, err, ltb, if◌then◌else◌, ◌==◌, str_eq,
}
use hwarr.Grid.{get_neighbors8}
use hwarr.Engine.Cleanup.{fire_key, active_grids_key}
use hwarr.Sio.Ignite.{
  FireWriter, FireRegistration, Landing, pick, fire_spread_threshold, fire_max_cascade_depth,
  total_key,
}
use hwarr.Sio.Ignite.Payloads.{DemoLocation}

-- An error of Redis.
pub data RedisError : Type 0 where
  redis_error : RedisError

abbrev pub hop_then : GoString × GoString → Result RedisError Landing → Result RedisError Landing
hop_then hop (err e) = err e
hop_then hop (ok (grid, path)) = ok (grid, hop ∷ path)

abbrev pub Registered : Type 0 → Type 0
Registered R = R × Result RedisError FireRegistration

module _ {R : Type 0} (ops : FireWriter R) where
  unfoldable pub spread : R → ℕ → (ℕ → ℕ) → ℕ → GoString → Result RedisError Landing
  unfolding get_neighbors8 pick
  spread r now draws zero grid = ok (grid, [])
  spread r now draws (suc n) grid = elim (ops.z_count r (fire_key grid) now) [
    | none ↦ err redis_error
    | some count ↦ elim (get_neighbors8 grid) [
      | none ↦ ok (grid, [])
      | some neighbors ↦
          let next = pick neighbors (draws n) grid in
          let rest = spread r now draws n next in
          if ltb count fire_spread_threshold then ok (grid, []) else hop_then (grid, next) rest
    ]
  ]

  abbrev pub last_count : R → Landing → Option ℕ → Registered R
  last_count r landing none = (r, err redis_error)
  last_count r (grid, path) (some count) =
      (r, ok (record { grid_id = grid; active_count = count; spread_path = path }))

  abbrev pub after_day : ℕ → GoString → GoString → GoString → Landing → R × Bool → Registered R
  after_day now today_key ranking_key member landing (r, false) = (r, err redis_error)
  after_day now today_key ranking_key member landing (r, true) =
      let ranked = (ops.z_incr_by (ops.expire r today_key 172800).0 ranking_key 1 member).0 in
      last_count ranked landing (ops.z_count ranked (fire_key landing.0) now)

  abbrev pub after_total : ℕ → GoString → GoString → GoString → Landing → R × Bool → Registered R
  after_total now today_key ranking_key member landing (r, false) = (r, err redis_error)
  after_total now today_key ranking_key member landing (r, true) =
      after_day now today_key ranking_key member landing (ops.incr r today_key)

  abbrev pub after_active : ℕ → GoString → GoString → GoString → Landing → R × Bool → Registered R
  after_active now today_key ranking_key member landing (r, false) = (r, err redis_error)
  after_active now today_key ranking_key member landing (r, true) =
      after_total now today_key ranking_key member landing (ops.incr r total_key)

  abbrev pub after_event : ℕ → GoString → GoString → GoString → Landing → R × Bool → Registered R
  after_event now today_key ranking_key member landing (r, false) = (r, err redis_error)
  after_event now today_key ranking_key member landing (r, true) =
      after_active now today_key ranking_key member landing (ops.s_add r active_grids_key landing.0)

  abbrev pub landed :
      R
      → ℕ
      → GoString
      → ℕ
      → GoString
      → (GoString → GoString)
      → Result RedisError Landing
      → Registered R
  landed r now event expire_at today member_of (err e) = (r, err e)
  landed r now event expire_at today member_of (ok landing) =
      after_event now (codes "stats:daily_fires:" ++ today) (codes "stats:daily_ranking:" ++ today)
        (member_of landing.0) landing (ops.z_add r (fire_key landing.0) expire_at event)

  unfoldable pub register_fire :
      R → ℕ → (ℕ → ℕ) → GoString → GoString → ℕ → GoString → (GoString → GoString) → Registered R
  unfolding spread
  register_fire r now draws grid event expire_at today member_of =
      landed r now event expire_at today member_of (spread r now draws fire_max_cascade_depth grid)

abbrev pub quoted : GoString → GoString
quoted id = b'\'' ∷ id ++ codes "'"

abbrev pub more_ids : List GoString → GoString
more_ids [] = codes "]"
more_ids (id ∷ ids) = codes ", " ++ (quoted id ++ more_ids ids)

unfoldable pub format_ids : List GoString → GoString
format_ids [] = codes "[]"
format_ids (id ∷ ids) = b'[' ∷ quoted id ++ more_ids ids

unfoldable pub not_found_message : GoString → List GoString → GoString
unfolding format_ids
not_found_message id available =
    codes "Demo location '" ++ (id ++ (codes "' not found. Available: " ++ format_ids available))

module _ {F : Type 0} where
  -- The location with an id.
  abbrev pub location_of : List (DemoLocation F) → GoString → Option (DemoLocation F)
  location_of [] id = none
  location_of (loc ∷ rest) id =
      let later = location_of rest id in if loc.id == id then some loc else later

  abbrev pub location_ids : List (DemoLocation F) → List GoString
  location_ids [] = []
  location_ids (loc ∷ rest) = loc.id ∷ location_ids rest

  abbrev pub nth_location : List (DemoLocation F) → ℕ → Option (DemoLocation F)
  nth_location [] i = none
  nth_location (loc ∷ rest) zero = some loc
  nth_location (loc ∷ rest) (suc i) = nth_location rest i

  abbrev pub found_or :
      Option (DemoLocation F) → GoString → List GoString → Result GoString (DemoLocation F)
  found_or none id available = err (not_found_message id available)
  found_or (some loc) id available = ok loc

  -- pickDemoLocation; the draw is below the number of locations, and the table is not empty.
  unfoldable pub pick_demo_location :
      List (DemoLocation F) → GoString → ℕ → Result GoString (DemoLocation F)
  unfolding not_found_message
  pick_demo_location locations [] draw =
      found_or (nth_location locations draw) [] (location_ids locations)
  pick_demo_location locations (c ∷ id) draw =
      found_or (location_of locations (c ∷ id)) (c ∷ id) (location_ids locations)
