-- ===== src/Engine/Cleanup.antt =====
-- CleanupEngine of server/internal/engine/cleanup.go. Redis is a parameter: a state `R` and an
-- operation for each method of CleanupRedis, whose answer is none, or false, for an error. Times
-- and scores are whole seconds. The ticker and the log are left out.
pub mod Laws
pub mod Store
pub mod Kept
pub mod Others
pub mod Cleaned
mod Examples
use hwarr.Base.{
  ℕ, ◌+◌, ◌-◌, GoString, codes, List, [], ◌∷◌, ◌++◌, Bool, true, false, Option, none, some,
  map_option, if◌then◌else◌, ◌==◌, nat_eq,
}
use hwarr.Engine.Progression.{Engine, remove_stage}

pub record CleanupRedis (R : Type 0) : Type 0 where
  pub s_members : R → GoString → Option (List GoString)
  pub z_rem_range_by_score : R → GoString → ℕ → R × Option ℕ
  pub z_card : R → GoString → Option ℕ
  pub del : R → GoString → R × Bool
  pub s_rem : R → GoString → GoString → R × Bool

abbrev pub active_grids_key : GoString
active_grids_key = codes "active_grids"

abbrev pub fire_key_prefix : GoString
fire_key_prefix = codes "fire:"

abbrev pub fire_key : GoString → GoString
fire_key grid = fire_key_prefix ++ grid

-- Redis, the stage tracker, if there is one, and the number of events removed so far.
pub record Pass (R : Type 0) : Type 0 where
  pub redis : R
  pub tracker : Option Engine
  pub cleaned : ℕ

module _ {R : Type 0} (ops : CleanupRedis R) where
  -- The grid whose set is empty; errors of Del and SRem are only logged.
  unfoldable pub drop_grid : Pass R → GoString → Pass R
  unfolding remove_stage
  drop_grid p grid = record p {
    redis = (ops.s_rem (ops.del p.redis (fire_key grid)).0 active_grids_key grid).0;
    tracker = map_option (λ e. remove_stage e grid) p.tracker;
  }

  -- The grid behind ZCard
  unfoldable pub check_empty : Pass R → GoString → Option ℕ → Pass R
  unfolding drop_grid
  check_empty p grid none = p
  check_empty p grid (some remaining) = if remaining == 0 then drop_grid p grid else p

  -- The grid behind ZRemRangeByScore
  unfoldable pub check_removed : Pass R → GoString → R × Option ℕ → Pass R
  unfolding check_empty
  check_removed p grid (r, none) = record p { redis = r }
  check_removed p grid (r, some removed) =
      check_empty (record p { redis = r; cleaned = p.cleaned + removed }) grid
        (ops.z_card r (fire_key grid))

  unfoldable pub clean_grid : Pass R → ℕ → GoString → Pass R
  unfolding check_removed
  clean_grid p now grid =
      check_removed p grid (ops.z_rem_range_by_score p.redis (fire_key grid) now)

  unfoldable pub clean_each : Pass R → ℕ → List GoString → Pass R
  unfolding clean_grid
  clean_each p now [] = p
  clean_each p now (grid ∷ grids) = clean_each (clean_grid p now grid) now grids

  -- RunCleanup; none where the set of grids cannot be read.
  unfoldable pub run_cleanup : R → Option Engine → ℕ → Option (Pass R)
  unfolding clean_each
  run_cleanup r tracker now = elim (ops.s_members r active_grids_key) [
    | none ↦ none
    | some grids ↦
        some (clean_each (record { redis = r; tracker = tracker; cleaned = 0 }) now grids)
  ]

-- The life of the loop: whether it is running, and how many loops have been launched and not ended.
pub record CleanupEngine : Type 0 where
  pub interval : ℕ
  pub running : Bool
  pub loops : ℕ

-- The default interval is 60 seconds.
unfoldable pub new_cleanup_engine : ℕ → CleanupEngine
new_cleanup_engine interval = record {
  interval = if interval == 0 then 60 else interval;
  running = false;
  loops = 0;
}

unfoldable pub start : CleanupEngine → CleanupEngine
start e = if e.running then e else record e { running = true; loops = e.loops + 1 }

-- Stop returns when the loop has ended.
unfoldable pub stop : CleanupEngine → CleanupEngine
stop e = if e.running then record e { running = false; loops = e.loops - 1 } else e

unfoldable pub is_running : CleanupEngine → Bool
is_running e = e.running
