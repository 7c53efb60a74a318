-- ===== src/Model/Fire.antt =====
-- server/internal/model/fire.go. A FireStage is a number, a count of active fires is at least 0.
use Prim.Native.String.{String}
use hwarr.Base.{
  ℕ, zero, suc, ◌≤◌, List, [], ◌∷◌, Bool, true, false, Option, leb, if◌then◌else◌, ◌≡◌, arith,
  get_or, nat_eq, ◌↔◌, GoString,
}
use hwarr.GoMap.{GoMap, get}

abbrev pub FireStage : Type 0
FireStage = ℕ

abbrev pub stage_none : FireStage
stage_none = 0

abbrev pub stage_bulsssi : FireStage
stage_bulsssi = 1

abbrev pub stage_modakbul : FireStage
stage_modakbul = 2

abbrev pub stage_hwajae : FireStage
stage_hwajae = 3

abbrev pub stage_daehwajae : FireStage
stage_daehwajae = 4

abbrev pub stage_jeonso : FireStage
stage_jeonso = 5

pub record StageConfig : Type 0 where
  pub stage : FireStage
  pub label_ko : String
  pub label_en : String
  pub threshold : ℕ
  pub duration_sec : ℕ
  pub triggers_firefighter : Bool
  pub firefighter_remove_count : ℕ

abbrev config : FireStage → String → String → ℕ → ℕ → Bool → ℕ → StageConfig
config stage label_ko label_en threshold duration_sec triggers_firefighter removes = record {
  stage = stage;
  label_ko = label_ko;
  label_en = label_en;
  threshold = threshold;
  duration_sec = duration_sec;
  triggers_firefighter = triggers_firefighter;
  firefighter_remove_count = removes;
}

abbrev pub stage_configs : GoMap FireStage StageConfig
stage_configs =
    (stage_none, config stage_none "없음" "none" 0 0 false 0)
    ∷ (stage_bulsssi, config stage_bulsssi "불씨" "ember" 1 86400 false 0)
    ∷ (stage_modakbul, config stage_modakbul "모닥불" "campfire" 10 86400 false 0)
    ∷ (stage_hwajae, config stage_hwajae "화재" "fire" 40 86400 false 0)
    ∷ (stage_daehwajae, config stage_daehwajae "대화재" "big fire" 120 86400 true 2)
    ∷ (stage_jeonso, config stage_jeonso "전소" "total burn" 280 86400 true 3)
    ∷ []

-- StageConfigs[stage], the zero value where there is no entry
unfoldable pub stage_config : FireStage → StageConfig
unfolding get
stage_config stage = get_or (get stage_configs stage) (config 0 "" "" 0 0 false 0)

abbrev pub stage_thresholds : List (ℕ × FireStage)
stage_thresholds =
    (280, stage_jeonso)
    ∷ (120, stage_daehwajae)
    ∷ (40, stage_hwajae)
    ∷ (10, stage_modakbul)
    ∷ (1, stage_bulsssi)
    ∷ (0, stage_none)
    ∷ []

-- The first threshold that the count reaches.
unfoldable pub first_reached : List (ℕ × FireStage) → ℕ → FireStage
first_reached [] count = stage_none
first_reached ((threshold, stage) ∷ rest) count =
    let later = first_reached rest count in if leb threshold count then stage else later

unfoldable pub get_stage : ℕ → FireStage
unfolding first_reached
get_stage active_count = first_reached stage_thresholds active_count

pub record FireStageInfo : Type 0 where
  pub stage : FireStage
  pub label_ko : String
  pub label_en : String
  pub triggers_firefighter : Bool

-- The optional coordinates are given by a type of the caller's.
pub record GridState (Coordinate : Type 0) : Type 0 where
  pub grid_id : GoString
  pub lat : Option Coordinate
  pub lng : Option Coordinate
  pub active_count : ℕ
  pub stage : FireStage
  pub stage_info : FireStageInfo

unfoldable pub build_grid_state :
    {Coordinate : Type 0}
    → GoString
    → ℕ
    → Option Coordinate
    → Option Coordinate
    → GridState Coordinate
unfolding get_stage stage_config
build_grid_state grid_id active_count lat lng =
    let stage = get_stage active_count in
    let cfg = stage_config stage in
    record {
      grid_id = grid_id;
      lat = lat;
      lng = lng;
      active_count = active_count;
      stage = stage;
      stage_info = record {
        stage = stage;
        label_ko = cfg.label_ko;
        label_en = cfg.label_en;
        triggers_firefighter = cfg.triggers_firefighter;
      };
    }

pub get_stage-le : (n : ℕ) → get_stage n ≤ stage_jeonso
unfolding get_stage
get_stage-le n = ground arith

-- GetStage against the configuration: for each of the six stages, the count reaches the stage's
-- configured threshold exactly if GetStage gives that stage or a higher one.
pub threshold_iff :
    (s n : ℕ) → s ≤ stage_jeonso → ((stage_config s).threshold ≤ n) ↔ (s ≤ get_stage n)
unfolding stage_config get_stage
threshold_iff zero n h = ground arith
threshold_iff (suc zero) n h = ground arith
threshold_iff (suc (suc zero)) n h = ground arith
threshold_iff (suc (suc (suc zero))) n h = ground arith
threshold_iff (suc (suc (suc (suc zero)))) n h = ground arith
threshold_iff (suc (suc (suc (suc (suc zero))))) n h = ground arith
threshold_iff (suc (suc (suc (suc (suc (suc s)))))) n h = absurd (omega arith)

pub get_stage_mono : (m n : ℕ) → m ≤ n → get_stage m ≤ get_stage n
unfolding get_stage
get_stage_mono m n h = ground arith

-- A grid's state sends a firefighter exactly from 120 fires on; the stage in the state and in its
-- information are that of the count.
pub build_grid_state_firefighter :
    {Coordinate : Type 0} (grid_id : GoString) (n : ℕ) (lat lng : Option Coordinate)
    → let s = build_grid_state grid_id n lat lng in
      (s.stage ≡ get_stage n)
      × (s.stage_info.stage ≡ s.stage)
      × ((s.stage_info.triggers_firefighter ≡ true) ↔ (120 ≤ n))
unfolding build_grid_state
build_grid_state_firefighter grid_id n lat lng = ground arith
