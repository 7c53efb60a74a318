-- ===== src/Sio/Ignite.antt =====
-- registerFireEvent of server/internal/sio/fire_ignite.go. Redis is a parameter: a state `R` and an
-- operation for each method of RedisFireWriter, whose answer is none, or false, for an error. Times
-- and scores are whole seconds, and the random choices of neighbours are an argument. The names of
-- the day's keys and the name of the region are arguments too.
pub mod Cascade
pub mod Registered
pub mod Payloads
pub mod Handler
mod Examples
use hwarr.Base.{
  ℕ, zero, suc, ◌+◌, ◌%◌, GoString, codes, List, [], ◌∷◌, ◌++◌, Bool, true, false, Option, none,
  some, Result, ok, err, ltb, length, if◌then◌else◌,
}
use hwarr.Grid.{get_neighbors8}
use hwarr.Engine.Cleanup.{fire_key, active_grids_key}

pub record FireWriter (R : Type 0) : Type 0 where
  pub z_count : R → GoString → ℕ → Option ℕ
  pub z_add : R → GoString → ℕ → GoString → R × Bool
  pub s_add : R → GoString → GoString → R × Bool
  pub incr : R → GoString → R × Bool
  pub expire : R → GoString → ℕ → R × Bool
  pub z_incr_by : R → GoString → ℕ → GoString → R × Bool

-- What failed.
pub data FireError : Type 0 where
  z_count_failed : GoString → FireError
  z_add_failed : GoString → FireError
  s_add_failed : FireError
  incr_failed : GoString → FireError
  z_count_final_failed : GoString → FireError

pub record FireRegistration : Type 0 where
  pub grid_id : GoString
  pub active_count : ℕ
  pub spread_path : List (GoString × GoString)

abbrev pub fire_spread_threshold : ℕ
fire_spread_threshold = 500

abbrev pub fire_max_cascade_depth : ℕ
fire_max_cascade_depth = 8

-- xs[i], where i is below the length
abbrev pub nth : List GoString → ℕ → GoString → GoString
nth [] i d = d
nth (x ∷ xs) zero d = x
nth (x ∷ xs) (suc i) d = nth xs i d

-- neighbors[rand.Intn(len(neighbors))]
unfoldable pub pick : List GoString → ℕ → GoString → GoString
pick [] draw d = d
pick (x ∷ xs) draw d = nth (x ∷ xs) (draw % length (x ∷ xs)) d

-- The grid where the cascade lands, and its path.
abbrev pub Landing : Type 0
Landing = GoString × List (GoString × GoString)

abbrev pub with_hop : GoString × GoString → Result FireError Landing → Result FireError Landing
with_hop hop (err e) = err e
with_hop hop (ok (grid, path)) = ok (grid, hop ∷ path)

abbrev pub total_key : GoString
total_key = codes "stats:total_fires"

module _ {R : Type 0} (ops : FireWriter R) where
  -- The loop of the cascade, for the rounds that are left; a draw for each round.
  unfoldable pub cascade : R → ℕ → (ℕ → ℕ) → ℕ → GoString → Result FireError Landing
  unfolding get_neighbors8 pick
  cascade r now draws zero grid = ok (grid, [])
  cascade r now draws (suc n) grid = elim (ops.z_count r (fire_key grid) now) [
    | none ↦ err (z_count_failed (fire_key grid))
    | some count ↦ elim (get_neighbors8 grid) [
      | none ↦ ok (grid, [])
      | some neighbors ↦
          let next = pick neighbors (draws n) grid in
          let rest = cascade r now draws n next in
          if ltb count fire_spread_threshold then ok (grid, []) else with_hop (grid, next) rest
    ]
  ]

  -- The last count
  abbrev pub final_count : R → ℕ → Landing → Option ℕ → R × Result FireError FireRegistration
  final_count r now (grid, path) none = (r, err (z_count_final_failed (fire_key grid)))
  final_count r now (grid, path) (some count) =
      (r, ok (record { grid_id = grid; active_count = count; spread_path = path }))

  -- The daily counter's lifetime and the ranking; their errors are dropped.
  abbrev pub count_day : R → GoString → GoString → GoString → R
  count_day r today_key ranking_key member =
      (ops.z_incr_by (ops.expire r today_key 172800).0 ranking_key 1 member).0

  -- The writes behind the cascade, each where the one before has succeeded.
  abbrev pub add_day :
      ℕ
      → GoString
      → GoString
      → GoString
      → Landing
      → R × Bool
      → R × Result FireError FireRegistration
  add_day now today_key ranking_key member landing (r, false) = (r, err (incr_failed today_key))
  add_day now today_key ranking_key member landing (r, true) =
      let counted = count_day r today_key ranking_key member in
      final_count counted now landing (ops.z_count counted (fire_key landing.0) now)

  abbrev pub add_total :
      ℕ
      → GoString
      → GoString
      → GoString
      → Landing
      → R × Bool
      → R × Result FireError FireRegistration
  add_total now today_key ranking_key member landing (r, false) = (r, err (incr_failed total_key))
  add_total now today_key ranking_key member landing (r, true) =
      add_day now today_key ranking_key member landing (ops.incr r today_key)

  abbrev pub add_active :
      ℕ
      → GoString
      → GoString
      → GoString
      → Landing
      → R × Bool
      → R × Result FireError FireRegistration
  add_active now today_key ranking_key member landing (r, false) = (r, err s_add_failed)
  add_active now today_key ranking_key member landing (r, true) =
      add_total now today_key ranking_key member landing (ops.incr r total_key)

  abbrev pub add_event :
      ℕ
      → GoString
      → GoString
      → GoString
      → Landing
      → R × Bool
      → R × Result FireError FireRegistration
  add_event now today_key ranking_key member landing (r, false) =
      (r, err (z_add_failed (fire_key landing.0)))
  add_event now today_key ranking_key member landing (r, true) =
      add_active now today_key ranking_key member landing (ops.s_add r active_grids_key landing.0)

  -- `today` is the date in KST, and `member_of` is ranking.ResolveMember.
  abbrev pub land :
      R
      → ℕ
      → GoString
      → ℕ
      → GoString
      → (GoString → GoString)
      → Result FireError Landing
      → R × Result FireError FireRegistration
  land r now event expire_at today member_of (err e) = (r, err e)
  land r now event expire_at today member_of (ok landing) =
      add_event now (codes "stats:daily_fires:" ++ today) (codes "stats:daily_ranking:" ++ today)
        (member_of landing.0) landing (ops.z_add r (fire_key landing.0) expire_at event)

  unfoldable pub register_fire_event :
      R
      → ℕ
      → (ℕ → ℕ)
      → GoString
      → GoString
      → ℕ
      → GoString
      → (GoString → GoString)
      → R × Result FireError FireRegistration
  unfolding cascade
  register_fire_event r now draws grid event expire_at today member_of =
      land r now event expire_at today member_of (cascade r now draws fire_max_cascade_depth grid)
