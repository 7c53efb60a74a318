-- ===== src/Engine/Cleanup/Others.antt =====
-- What a pass of server/internal/engine/cleanup.go does to the grids that it is not at.
use hwarr.Base.{
  ℕ, ◌+◌, GoString, true, false, Option, none, some, ◌==◌, nat_eq, str_eq, str_beq, ◌≡◌, refl, sym,
  ◌∙◌, arith, Bool-cases, inl, inr,
}
use hwarr.Engine.Cleanup.{
  CleanupRedis, Pass, active_grids_key, fire_key, drop_grid, check_empty, check_removed, clean_grid,
}
use hwarr.Engine.Cleanup.Laws.{CleanupLaws, View, above}

module _ {R : Type 0} (ops : CleanupRedis R) (v : View R) (laws : CleanupLaws ops v)
    (grid : GoString) (now : ℕ) where
  -- A grid's set and its entry in the active grids.
  abbrev pub IsSame : R → R → Type 0
  IsSame r s =
      ((k : GoString) → v.score s (fire_key grid) k ≡ v.score r (fire_key grid) k)
      × (v.listed s active_grids_key grid ≡ v.listed r active_grids_key grid)

  drop_grid-IsSame :
      (p : Pass R) (other : GoString)
      → (other == grid) ≡ false
      → IsSame p.redis (drop_grid ops p other).redis
  unfolding drop_grid str_beq
  drop_grid-IsSame p other apart =
      let deleted = (ops.del p.redis (fire_key other)).0 in
      (
        λ k.
            laws.rems_scores deleted active_grids_key other (fire_key grid) k
            ∙ laws.dels p.redis (fire_key other) (fire_key grid) k
            ∙ ground (arith, apart),
        laws.rems deleted active_grids_key other active_grids_key grid
            ∙ ground
                (arith, apart, laws.dels_lists p.redis (fire_key other) active_grids_key grid refl),
      )

  check_empty-IsSame :
      (p : Pass R) (other : GoString) (card : Option ℕ)
      → (other == grid) ≡ false
      → IsSame p.redis (check_empty ops p other card).redis
  unfolding check_empty
  check_empty-IsSame p other none apart = (λ k. refl, refl)
  check_empty-IsSame p other (some n) apart = elim (Bool-cases (n == 0)) [
    | inl z ↦ rw z (drop_grid-IsSame p other apart)
    | inr z ↦ rw z (λ k. refl, refl)
  ]

  removed-IsSame :
      (r : R) (other : GoString)
      → (other == grid) ≡ false
      → IsSame r (ops.z_rem_range_by_score r (fire_key other) now).0
  unfolding str_beq
  removed-IsSame r other apart = (
    λ k. laws.removes r (fire_key other) now (fire_key grid) k ∙ ground (arith, apart),
    laws.removes_lists r (fire_key other) now active_grids_key grid,
  )

  check_removed-IsSame :
      (p : Pass R) (other : GoString) (d : R × Option ℕ)
      → (other == grid) ≡ false
      → IsSame d.0 (check_removed ops p other d).redis
  unfolding check_removed
  check_removed-IsSame p other (r, none) apart = (λ k. refl, refl)
  check_removed-IsSame p other (r, some n) apart =
      check_empty-IsSame (record { redis = r; tracker = p.tracker; cleaned = p.cleaned + n }) other
        (ops.z_card r (fire_key other)) apart

  pub clean_grid-IsSame :
      (p : Pass R) (other : GoString)
      → (other == grid) ≡ false
      → IsSame p.redis (clean_grid ops p now other).redis
  unfolding clean_grid
  clean_grid-IsSame p other apart =
      let one = removed-IsSame p.redis other apart in
      let two =
        check_removed-IsSame p other (ops.z_rem_range_by_score p.redis (fire_key other) now)
          apart in
      (λ k. two.0 k ∙ one.0 k, two.1 ∙ one.1)

  -- Nothing in the grid's set has expired, and it is listed only with an event in its set.
  abbrev pub IsClean : R → Type 0
  IsClean r =
      ((k : GoString) → v.score r (fire_key grid) k ≡ above now (v.score r (fire_key grid) k))
      × (¬ (
          (v.listed r active_grids_key grid ≡ true)
          × ((k : GoString) → v.score r (fire_key grid) k ≡ none)))

  pub IsSame-IsClean : (r s : R) → IsSame r s → IsClean r → IsClean s
  IsSame-IsClean r s same c =
      (λ k. rw (same.0 k) (c.0 k), λ h. c.1 (sym same.1 ∙ h.0, λ k. sym (same.0 k) ∙ h.1 k))
