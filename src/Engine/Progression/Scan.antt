-- ===== src/Engine/Progression/Scan.antt =====
-- What a progression scan leaves tracked, broadcasts and takes out of the active grids.
use hwarr.Base.{
  contains, ℕ, suc, GoString, List, [], ◌∷◌, true, Option, none, some, if◌then◌else◌, ◌==◌, str_eq,
  str_iff, ◌≡◌, ◌≢◌, refl, arith, All, Bool-cases, Option-cases, inl, inr, leb, ◌∙◌,
}
use hwarr.GoMap.{get, assign}
use hwarr.GoMap.Laws.{get-assign, get-delete}
use hwarr.Model.Fire.{FireStage, stage_none, get_stage, stage_config}
use hwarr.Engine.Progression.{
  Engine, Progress, Emission, firefighter_spawn, get_grid_stage, set_grid_stage, scan_counted,
  scan_grid, scan_each, scan_and_update_stages, announce,
}

get_grid_stage-scan_counted :
    (p : Progress) (g : GoString) (n : ℕ) (x : GoString)
    → get_grid_stage (scan_counted p g n).engine x
      ≡ (if g == x then get_stage n else get_grid_stage p.engine x)
unfolding get_grid_stage scan_counted
get_grid_stage-scan_counted p g n x =
    let stages = p.engine.grid_stages in
    ground (
      arith,
      get-assign stages g x (get_stage n),
      get-delete (assign stages g (get_stage n)) g x,
      get-delete stages g x,
      str_iff g x,
    )

-- The tracked stage of a grid is that of its count, if there is one.
abbrev pub IsSettled : (GoString → Option ℕ) → Engine → GoString → Type 0
IsSettled counts e x = (n : ℕ) → counts x ≡ some n → get_grid_stage e x ≡ get_stage n

scan_grid-some :
    (counts : GoString → Option ℕ) (p : Progress) (g : GoString) (n : ℕ)
    → counts g ≡ some n
    → scan_grid counts p g ≡ scan_counted p g n
unfolding scan_grid
scan_grid-some counts p g n h = rw (h, scan_grid)

scan_grid-none :
    (counts : GoString → Option ℕ) (p : Progress) (g : GoString)
    → counts g ≡ none
    → scan_grid counts p g ≡ p
unfolding scan_grid
scan_grid-none counts p g h = rw (h, scan_grid)

scan_grid_settles :
    (counts : GoString → Option ℕ) (p : Progress) (g : GoString)
    → IsSettled counts (scan_grid counts p g).engine g
scan_grid_settles counts p g n h =
    rw (scan_grid-some counts p g n h)
      (ground (arith, get_grid_stage-scan_counted p g n g, str_iff g g))

same_count :
    (counts : GoString → Option ℕ) (g x : GoString) (n m : ℕ)
    → g ≡ x
    → counts x ≡ some n
    → counts g ≡ some m
    → m ≡ n
same_count counts g x n m e a b = let c : counts x ≡ some m = rw e at b in ground arith

scan_grid_keeps :
    (counts : GoString → Option ℕ) (p : Progress) (g x : GoString)
    → IsSettled counts p.engine x
    → IsSettled counts (scan_grid counts p g).engine x
scan_grid_keeps counts p g x s n h = elim (Option-cases (counts g)) [
  | inl failed ↦ rw (scan_grid-none counts p g failed) (s n h)
  | inr (m, counted) ↦ elim (Bool-cases (g == x)) [
    | inl here ↦
        let e : m ≡ n = same_count counts g x n m ((str_iff g x).0 here) h counted in
        rw (scan_grid-some counts p g m counted, get_grid_stage-scan_counted p g m x, here, e)
    | inr there ↦
        rw (scan_grid-some counts p g m counted, get_grid_stage-scan_counted p g m x, there) (s n h)
  ]
]

scan_each_keeps :
    (counts : GoString → Option ℕ) (grids : List GoString) (p : Progress) (x : GoString)
    → IsSettled counts p.engine x
    → IsSettled counts (scan_each counts grids p).engine x
unfolding scan_each
scan_each_keeps counts [] p x s = s
scan_each_keeps counts (g ∷ grids) p x s =
    scan_each_keeps counts grids (scan_grid counts p g) x (scan_grid_keeps counts p g x s)

scan_each_settles :
    (counts : GoString → Option ℕ) (grids : List GoString) (p : Progress)
    → All (IsSettled counts (scan_each counts grids p).engine) grids
unfolding scan_each
scan_each_settles counts [] p = tt
scan_each_settles counts (g ∷ grids) p = (
  scan_each_keeps counts grids (scan_grid counts p g) g (scan_grid_settles counts p g),
  scan_each_settles counts grids (scan_grid counts p g),
)

IsSettled-contains :
    (counts : GoString → Option ℕ) (e : Engine) (grids : List GoString) (g : GoString)
    → All (IsSettled counts e) grids
    → contains grids g ≡ true
    → IsSettled counts e g
IsSettled-contains counts e [] g h k = absurd (cc)
IsSettled-contains counts e (x ∷ grids) g h k = elim (Bool-cases (x == g)) [
  | inl same ↦
      let p : x ≡ g = ground (arith, str_iff x g) in
      λ n c. ground (arith, p, h.0 n (ground (arith, p, c)))
  | inr other ↦ IsSettled-contains counts e grids g h.1 (ground arith)
]

-- After a scan every active grid whose count was read is tracked at the stage of that count, with
-- stage 0 for a grid with no entry.
pub scan_and_update_stages_settles :
    (e : Engine) (grids : List GoString) (counts : GoString → Option ℕ) (g : GoString) (n : ℕ)
    → contains grids g ≡ true
    → counts g ≡ some n
    → get_grid_stage (scan_and_update_stages e (some grids) counts).0.engine g ≡ get_stage n
unfolding scan_and_update_stages
scan_and_update_stages_settles e grids counts g n active counted =
    IsSettled-contains counts (scan_and_update_stages e (some grids) counts).0.engine grids g
      (scan_each_settles counts grids _) active n counted

scan_counted_quiet :
    (p : Progress) (g : GoString) (n : ℕ)
    → get_grid_stage p.engine g ≡ get_stage n
    → (scan_counted p g n).emissions ≡ p.emissions
unfolding scan_counted
scan_counted_quiet p g n h = ground arith

scan_grid_quiet :
    (counts : GoString → Option ℕ) (p : Progress) (g : GoString)
    → IsSettled counts p.engine g
    → (scan_grid counts p g).emissions ≡ p.emissions
scan_grid_quiet counts p g s = elim (Option-cases (counts g)) [
  | inl failed ↦ rw (scan_grid-none counts p g failed)
  | inr (n, counted) ↦
      rw (scan_grid-some counts p g n counted) (scan_counted_quiet p g n (s n counted))
]

All-keeps :
    (counts : GoString → Option ℕ) (p : Progress) (g : GoString) (grids : List GoString)
    → All (IsSettled counts p.engine) grids
    → All (IsSettled counts (scan_grid counts p g).engine) grids
All-keeps counts p g [] s = tt
All-keeps counts p g (x ∷ grids) s =
    (scan_grid_keeps counts p g x s.0, All-keeps counts p g grids s.1)

scan_each_quiet :
    (counts : GoString → Option ℕ) (grids : List GoString) (p : Progress)
    → All (IsSettled counts p.engine) grids
    → (scan_each counts grids p).emissions ≡ p.emissions
unfolding scan_each
scan_each_quiet counts [] p s = refl
scan_each_quiet counts (g ∷ grids) p s =
    scan_each_quiet counts grids (scan_grid counts p g) (All-keeps counts p g grids s.1)
    ∙ scan_grid_quiet counts p g s.0

-- A second scan that reads the same grids and the same counts broadcasts nothing.
pub rescan_quiet :
    (e : Engine) (grids : List GoString) (counts : GoString → Option ℕ)
    → let first = scan_and_update_stages e (some grids) counts in
      (scan_and_update_stages first.0.engine (some grids) counts).0.emissions ≡ []
unfolding scan_and_update_stages
rescan_quiet e grids counts = scan_each_quiet counts grids _ (scan_each_settles counts grids _)

-- No grid is tracked at stage 0.
abbrev pub TracksFires : Engine → Type 0
TracksFires e = (x : GoString) → get e.grid_stages x ≢ some stage_none

scan_counted-TracksFires :
    (p : Progress) (g : GoString) (n : ℕ)
    → TracksFires p.engine
    → TracksFires (scan_counted p g n).engine
unfolding scan_counted
scan_counted-TracksFires p g n h x =
    let stages = p.engine.grid_stages in
    ground (
      arith,
      h x,
      get-assign stages g x (get_stage n),
      get-delete (assign stages g (get_stage n)) g x,
      get-delete stages g x,
    )

scan_each-TracksFires :
    (counts : GoString → Option ℕ) (grids : List GoString) (p : Progress)
    → TracksFires p.engine
    → TracksFires (scan_each counts grids p).engine
unfolding scan_each
scan_each-TracksFires counts [] p h = h
scan_each-TracksFires counts (g ∷ grids) p h =
    scan_each-TracksFires counts grids (scan_grid counts p g) (elim (Option-cases (counts g)) [
      | inl failed ↦ rw (scan_grid-none counts p g failed) h
      | inr (n, counted) ↦
          rw (scan_grid-some counts p g n counted) (scan_counted-TracksFires p g n h)
    ])

-- No scan, and no change from outside through SetGridStage, leaves a grid tracked at stage 0.
pub scan-TracksFires :
    (e : Engine) (grids : Option (List GoString)) (counts : GoString → Option ℕ) (g : GoString)
    (stage : FireStage)
    → TracksFires e
    → TracksFires (scan_and_update_stages e grids counts).0.engine
      × TracksFires (set_grid_stage e g stage)
unfolding scan_and_update_stages set_grid_stage
scan-TracksFires e none counts g stage h =
    (h, λ x. ground (arith, h x, get-assign e.grid_stages g x stage, get-delete e.grid_stages g x))
scan-TracksFires e (some grids) counts g stage h = (
  scan_each-TracksFires counts grids _ h,
  λ x. ground (arith, h x, get-assign e.grid_stages g x stage, get-delete e.grid_stages g x),
)

pub spawns : List Emission → ℕ
spawns [] = 0
spawns ((to, firefighter_spawn g n s) ∷ es) = suc (spawns es)
spawns (e ∷ es) = spawns es

-- The announcement of a change of stage to that of the count, from any stage before, holds two
-- firefighter events where the count is at least 120 and none below: also where the stage went
-- down.
pub announce-spawns :
    (g : GoString) (n : ℕ) (prev : FireStage)
    → spawns (announce g n (get_stage n) prev) ≡ (if leb 120 n then 2 else 0)
unfolding announce spawns get_stage stage_config get
announce-spawns g n prev = ground arith
