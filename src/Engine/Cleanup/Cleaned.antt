-- ===== src/Engine/Cleanup/Cleaned.antt =====
-- What a pass of server/internal/engine/cleanup.go leaves where the calls of Redis succeed.
use hwarr.Base.{
  contains, ℕ, ◌+◌, GoString, List, [], ◌∷◌, true, false, Option, none, some, ◌==◌, nat_eq, str_eq,
  str_iff, ◌≡◌, refl, sym, ◌∙◌, arith, Option-cases, Bool-cases, inl, inr, is_some,
}
use hwarr.Engine.Progression.{Engine}
use hwarr.Engine.Cleanup.{
  CleanupRedis, Pass, active_grids_key, fire_key, drop_grid, check_empty, check_removed, clean_grid,
  clean_each, run_cleanup,
}
use hwarr.Engine.Cleanup.Laws.{CleanupLaws, IsReliable, View, above}
use hwarr.Engine.Cleanup.Others.{IsClean, clean_grid-IsSame, IsSame-IsClean}

above-above : (bound : ℕ) (o : Option ℕ) → above bound (above bound o) ≡ above bound o
above-above bound none = refl
above-above bound (some s) = ground arith

module _ {R : Type 0} (ops : CleanupRedis R) (v : View R) (laws : CleanupLaws ops v)
    (grid : GoString) (now : ℕ) (reliable : IsReliable ops) where
  drop_grid-listed :
      (p : Pass R) → v.listed (drop_grid ops p grid).redis active_grids_key grid ≡ false
  unfolding drop_grid
  drop_grid-listed p =
      let deleted = (ops.del p.redis (fire_key grid)).0 in
      laws.rems deleted active_grids_key grid active_grids_key grid
      ∙ ground (
        arith,
        reliable.rems_succeeds deleted active_grids_key grid,
        str_iff grid grid,
        str_iff active_grids_key active_grids_key,
      )

  drop_grid-score :
      (p : Pass R) (k : GoString) → v.score (drop_grid ops p grid).redis (fire_key grid) k ≡ none
  unfolding drop_grid
  drop_grid-score p k =
      let deleted = (ops.del p.redis (fire_key grid)).0 in
      laws.rems_scores deleted active_grids_key grid (fire_key grid) k
      ∙ laws.dels p.redis (fire_key grid) (fire_key grid) k
      ∙ ground (
        arith,
        reliable.dels_succeeds p.redis (fire_key grid),
        str_iff (fire_key grid) (fire_key grid),
      )

  drop_grid-IsClean : (p : Pass R) → IsClean ops v laws grid now (drop_grid ops p grid).redis
  drop_grid-IsClean p =
      (λ k. rw (drop_grid-score p k) refl, λ h. ground (arith, h.0, drop_grid-listed p))

  check_empty-IsClean :
      (p : Pass R) (card : Option ℕ)
      → ops.z_card p.redis (fire_key grid) ≡ card
      → is_some card ≡ true
      → ((k : GoString)
          → v.score p.redis (fire_key grid) k ≡ above now (v.score p.redis (fire_key grid) k))
      → IsClean ops v laws grid now (check_empty ops p grid card).redis
  unfolding check_empty
  check_empty-IsClean p none e s h = absurd (ground (arith, s))
  check_empty-IsClean p (some n) e s h = elim (Bool-cases (n == 0)) [
    | inl z ↦ rw z (drop_grid-IsClean p)
    | inr z ↦ rw z (h, λ k. laws.counts_more p.redis (fire_key grid) e z k.1)
  ]

  check_removed-IsClean :
      (p : Pass R) (d : R × Option ℕ)
      → is_some d.1 ≡ true
      → ((k : GoString) → v.score d.0 (fire_key grid) k ≡ above now (v.score d.0 (fire_key grid) k))
      → IsClean ops v laws grid now (check_removed ops p grid d).redis
  unfolding check_removed
  check_removed-IsClean p (r, none) s h = absurd (ground (arith, s))
  check_removed-IsClean p (r, some n) s h =
      check_empty-IsClean (record { redis = r; tracker = p.tracker; cleaned = p.cleaned + n })
        (ops.z_card r (fire_key grid)) refl (reliable.counts_succeeds r (fire_key grid)) h

  removed-score :
      (r : R) (k : GoString)
      → v.score (ops.z_rem_range_by_score r (fire_key grid) now).0 (fire_key grid) k
        ≡ above now (v.score r (fire_key grid) k)
  removed-score r k =
      laws.removes r (fire_key grid) now (fire_key grid) k
      ∙ ground (
        arith,
        reliable.removes_succeeds r (fire_key grid) now,
        str_iff (fire_key grid) (fire_key grid),
      )

  clean_grid-IsClean : (p : Pass R) → IsClean ops v laws grid now (clean_grid ops p now grid).redis
  unfolding clean_grid
  clean_grid-IsClean p =
      check_removed-IsClean p (ops.z_rem_range_by_score p.redis (fire_key grid) now)
        (reliable.removes_succeeds p.redis (fire_key grid) now)
        (λ k.
          rw (removed-score p.redis k) (sym (above-above now (v.score p.redis (fire_key grid) k))))

  clean_each-keeps-IsClean :
      (p : Pass R) (grids : List GoString)
      → IsClean ops v laws grid now p.redis
      → IsClean ops v laws grid now (clean_each ops p now grids).redis
  unfolding clean_each
  clean_each-keeps-IsClean p [] h = h
  clean_each-keeps-IsClean p (other ∷ grids) h =
      clean_each-keeps-IsClean (clean_grid ops p now other) grids
        (elim (Bool-cases (other == grid)) [
          | inl same ↦ rw ((str_iff other grid).0 same) (clean_grid-IsClean p)
          | inr apart ↦
              IsSame-IsClean ops v laws grid now p.redis (clean_grid ops p now other).redis
                (clean_grid-IsSame ops v laws grid now p other apart) h
        ])

  clean_each-IsClean :
      (p : Pass R) (grids : List GoString)
      → contains grids grid ≡ true
      → IsClean ops v laws grid now (clean_each ops p now grids).redis
  unfolding clean_each
  clean_each-IsClean p [] h = absurd (ground (arith, h))
  clean_each-IsClean p (other ∷ grids) h = elim (Bool-cases (other == grid)) [
    | inl same ↦
        clean_each-keeps-IsClean (clean_grid ops p now other) grids
          (rw ((str_iff other grid).0 same) (clean_grid-IsClean p))
    | inr apart ↦ clean_each-IsClean (clean_grid ops p now other) grids (ground (arith, apart, h))
  ]

  -- Where every call of Redis succeeds and does what it is documented to do: when a pass is over,
  -- no event is left in the set of a grid that was listed as active whose time is not after that
  -- of the pass, and the grid is not listed as active with an empty set.
  pub run_cleanup-cleans :
      (r : R) (tracker : Option Engine) {p : Pass R}
      → run_cleanup ops r tracker now ≡ some p
      → v.listed r active_grids_key grid ≡ true
      → ((member : GoString)
          → v.score p.redis (fire_key grid) member
            ≡ above now (v.score p.redis (fire_key grid) member))
        × (¬ (
            (v.listed p.redis active_grids_key grid ≡ true)
            × ((member : GoString) → v.score p.redis (fire_key grid) member ≡ none)))
  unfolding run_cleanup
  run_cleanup-cleans r tracker {p} e h = elim (Option-cases (ops.s_members r active_grids_key)) [
    | inl n ↦ absurd (ground (arith, n, e))
    | inr (grids, n) ↦
        let start : Pass R = record { redis = r; tracker = tracker; cleaned = 0 } in
        let same : clean_each ops start now grids ≡ p = ground (arith, n, e) in
        rw (sym same) (clean_each-IsClean start grids (laws.lists r active_grids_key grid n h))
  ]
