-- ===== src/Engine/Progression.antt =====
-- FireProgressionEngine of server/internal/engine/fire_progression.go. Redis answers a scan with
-- the members of `active_grids` and, for each, a count or an error (`none`). What is broadcast is a
-- list of emissions, oldest first; a failed broadcast is only logged in the source. The clock's
-- timestamps and the random id of a firefighter are left out of the payloads.
pub mod Scan
mod Examples
use Prim.Native.String.{String}
use hwarr.Base.{
  ℕ, GoString, List, [], ◌∷◌, ◌++◌, Bool, true, false, Option, none, some, leb, max, nat_beq,
  if◌then◌else◌, str_eq, get_or, nat_eq,
}
use hwarr.GoMap.{GoMap, get, assign, delete}
use hwarr.Model.Fire
use hwarr.Model.Fire.{
  FireStage, stage_none, stage_daehwajae, get_stage, stage_config, GridState, build_grid_state,
}

-- Both the room of a grid and the whole namespace "/" are addressed.
pub data Audience : Type 0 where
  room : GoString → Audience
  everyone : Audience

pub data Payload : Type 0 where
  fire_update : GridState (Unit {0}) → Payload
  stage_transition : GoString → ℕ → FireStage → FireStage → Payload
  firefighter_spawn : GoString → ℕ → FireStage → Payload

abbrev pub Emission : Type 0
Emission = Audience × Payload

pub record Engine : Type 0 where
  pub grid_stages : GoMap GoString FireStage
  pub running : Bool

unfoldable pub new_engine : Engine
new_engine = record { grid_stages = []; running = false }

-- e.gridStages[gridID]
unfoldable pub get_grid_stage : Engine → GoString → FireStage
get_grid_stage e grid = get_or (get e.grid_stages grid) stage_none

unfoldable pub set_grid_stage : Engine → GoString → FireStage → Engine
set_grid_stage e grid stage =
    if nat_beq stage stage_none
    then record e { grid_stages = delete e.grid_stages grid }
    else record e { grid_stages = assign e.grid_stages grid stage }

-- RemoveStage of cleanup.go
unfoldable pub remove_stage : Engine → GoString → Engine
unfolding set_grid_stage
remove_stage e grid = set_grid_stage e grid 0

-- Whether a scan loop is launched, beside the new state.
unfoldable pub start : Engine → Engine × Bool
start e = if e.running then (e, false) else (record e { running = true }, true)

-- Whether the loop is told to end.
unfoldable pub stop : Engine → Engine × Bool
stop e = if e.running then (record e { running = false }, true) else (e, false)

abbrev to_both : GoString → Payload → List Emission
to_both grid payload = (room grid, payload) ∷ (everyone, payload) ∷ []

unfoldable pub broadcast_stage_change : GoString → ℕ → FireStage → FireStage → List Emission
broadcast_stage_change grid count new prev =
    to_both grid (fire_update (build_grid_state grid count none none))
    ++ to_both grid (stage_transition grid count prev new)

unfoldable pub broadcast_firefighter_spawn : GoString → ℕ → List Emission
broadcast_firefighter_spawn grid count =
    let stage = get_stage count in
    let cfg = stage_config stage in
    if cfg.triggers_firefighter
    then to_both grid (firefighter_spawn grid (max cfg.firefighter_remove_count 1) stage)
    else []

-- BroadcastStageChange
unfoldable pub announce : GoString → ℕ → FireStage → FireStage → List Emission
unfolding broadcast_stage_change broadcast_firefighter_spawn
announce grid count new prev =
    broadcast_stage_change grid count new prev
    ++ (if leb stage_daehwajae new then broadcast_firefighter_spawn grid count else [])

-- What a scan has done so far: the engine, what it broadcast and the grids that it took out of
-- `active_grids`.
pub record Progress : Type 0 where
  pub engine : Engine
  pub emissions : List Emission
  pub removed : List GoString

-- The round of the loop for one grid whose count is known.
unfoldable pub scan_counted : Progress → GoString → ℕ → Progress
unfolding get_grid_stage announce
scan_counted p grid count =
    let new = get_stage count in
    let prev = get_grid_stage p.engine grid in
    let changed = if nat_beq new prev then p else record p {
      engine = record (p.engine) { grid_stages = assign p.engine.grid_stages grid new };
      emissions = p.emissions ++ announce grid count new prev;
    } in
    if nat_beq new stage_none
    then record changed {
      engine = record (changed.engine) { grid_stages = delete changed.engine.grid_stages grid };
      removed = changed.removed ++ grid ∷ [];
    }
    else changed

-- A grid whose count is an error is passed over.
unfoldable pub scan_grid : (GoString → Option ℕ) → Progress → GoString → Progress
unfolding scan_counted
scan_grid counts p grid = elim (counts grid) [ none ↦ p | some n ↦ scan_counted p grid n ]

unfoldable pub scan_each : (GoString → Option ℕ) → List GoString → Progress → Progress
unfolding scan_grid
scan_each counts [] p = p
scan_each counts (grid ∷ grids) p = scan_each counts grids (scan_grid counts p grid)

-- `none` where the set of grids could not be read: the scan ends with an error and no change.
unfoldable pub scan_and_update_stages :
    Engine → Option (List GoString) → (GoString → Option ℕ) → Progress × Bool
unfolding scan_each
scan_and_update_stages e none counts = (record { engine = e; emissions = []; removed = [] }, false)
scan_and_update_stages e (some grids) counts =
    (scan_each counts grids (record { engine = e; emissions = []; removed = [] }), true)

-- stageName
unfoldable pub stage_name : FireStage → String
stage_name stage = elim (get Fire.stage_configs stage) [
  | none ↦ "unknown"
  | some cfg ↦ cfg.label_en
]
