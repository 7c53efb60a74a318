-- ===== src/Engine/Cleanup/Kept.antt =====
-- What a pass of server/internal/engine/cleanup.go keeps, also where calls of Redis fail.
use hwarr.Base.{
  ℕ, ◌<◌, GoString, List, [], ◌∷◌, true, false, Option, none, some, ◌==◌, nat_eq, str_eq, str_iff,
  str_beq, ◌≡◌, refl, sym, ◌∙◌, arith, Option-cases, Bool-cases, inl, inr,
}
use hwarr.Engine.Progression.{Engine}
use hwarr.Engine.Cleanup.{
  CleanupRedis, Pass, active_grids_key, fire_key, drop_grid, check_empty, check_removed, clean_grid,
  clean_each, run_cleanup,
}
use hwarr.Engine.Cleanup.Laws.{CleanupLaws, View}

module _ {R : Type 0} (ops : CleanupRedis R) (v : View R) (laws : CleanupLaws ops v)
    (grid member : GoString) (score now : ℕ) (alive : now < score) where
  -- The event is in the grid's set, and the grid is listed as active.
  abbrev IsThere : R → Type 0
  IsThere r =
      (v.score r (fire_key grid) member ≡ some score) × (v.listed r active_grids_key grid ≡ true)

  drop_grid-IsThere :
      (p : Pass R) (other : GoString)
      → (other == grid) ≡ false
      → IsThere p.redis
      → IsThere (drop_grid ops p other).redis
  unfolding drop_grid str_beq
  drop_grid-IsThere p other apart h =
      let deleted = (ops.del p.redis (fire_key other)).0 in
      (
        laws.rems_scores deleted active_grids_key other (fire_key grid) member
            ∙ laws.dels p.redis (fire_key other) (fire_key grid) member
            ∙ ground (arith, apart, h.0),
        laws.rems deleted active_grids_key other active_grids_key grid
            ∙ ground (
              arith,
              apart,
              h.1,
              laws.dels_lists p.redis (fire_key other) active_grids_key grid refl,
            ),
      )

  none_there :
      (r : R) (other : GoString)
      → (other == grid) ≡ true
      → ops.z_card r (fire_key other) ≡ some 0
      → IsThere r
      → ⊥
  none_there r other same c h =
      ground (arith, str_iff other grid, same, h.0, laws.counts_zero r (fire_key other) member c)

  check_empty-IsThere :
      (p : Pass R) (other : GoString) (card : Option ℕ)
      → ops.z_card p.redis (fire_key other) ≡ card
      → IsThere p.redis
      → IsThere (check_empty ops p other card).redis
  unfolding check_empty
  check_empty-IsThere p other none e h = h
  check_empty-IsThere p other (some n) e h = elim (Bool-cases (n == 0)) [
    | inl z ↦ elim (Bool-cases (other == grid)) [
      | inl same ↦ absurd (none_there p.redis other same (e ∙ ground (arith, z)) h)
      | inr apart ↦ rw z (drop_grid-IsThere p other apart h)
    ]
    | inr z ↦ rw z h
  ]

  kept :
      (r : R) (other : GoString)
      → IsThere r
      → IsThere (ops.z_rem_range_by_score r (fire_key other) now).0
  kept r other h = (
    laws.removes r (fire_key other) now (fire_key grid) member ∙ ground (arith, alive, h.0),
    laws.removes_lists r (fire_key other) now active_grids_key grid ∙ h.1,
  )

  clean_grid-IsThere :
      (p : Pass R) (other : GoString) → IsThere p.redis → IsThere (clean_grid ops p now other).redis
  unfolding clean_grid check_removed
  clean_grid-IsThere p other h =
      check_removed-IsThere (ops.z_rem_range_by_score p.redis (fire_key other) now)
        (kept p.redis other h)
    where
      check_removed-IsThere :
          (d : R × Option ℕ) → IsThere d.0 → IsThere (check_removed ops p other d).redis
      check_removed-IsThere (r, none) k = k
      check_removed-IsThere (r, some n) k = check_empty-IsThere _ other _ refl k

  clean_each-IsThere :
      (p : Pass R) (grids : List GoString)
      → IsThere p.redis
      → IsThere (clean_each ops p now grids).redis
  unfolding clean_each
  clean_each-IsThere p [] h = h
  clean_each-IsThere p (other ∷ grids) h =
      clean_each-IsThere (clean_grid ops p now other) grids (clean_grid-IsThere p other h)

  -- Whatever calls of Redis fail, where those that succeed do what they are documented to do and
  -- those that fail leave the data: an event that expires after the time of a pass is still in
  -- its grid's set when the pass is over, and its grid is still listed as active if it was
  -- before.
  pub run_cleanup-keeps :
      (r : R) (tracker : Option Engine) {p : Pass R}
      → run_cleanup ops r tracker now ≡ some p
      → v.score r (fire_key grid) member ≡ some score
      → v.listed r active_grids_key grid ≡ true
      → (v.score p.redis (fire_key grid) member ≡ some score)
        × (v.listed p.redis active_grids_key grid ≡ true)
  unfolding run_cleanup
  run_cleanup-keeps r tracker {p} e h k = elim (Option-cases (ops.s_members r active_grids_key)) [
    | inl n ↦ absurd (ground (arith, n, e))
    | inr (grids, n) ↦
        let start : Pass R = record { redis = r; tracker = tracker; cleaned = 0 } in
        let same : clean_each ops start now grids ≡ p = ground (arith, n, e) in
        rw (sym same) (clean_each-IsThere start grids (h, k))
  ]
