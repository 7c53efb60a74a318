-- ===== src/Engine/Cleanup/Laws.antt =====
-- What server/internal/engine/cleanup.go relies on of Redis: ZREMRANGEBYSCORE, ZCARD, DEL, SREM and
-- SMEMBERS as they are documented, where they succeed, and no change where they fail.
use hwarr.Base.{
  contains, ℕ, GoString, List, Bool, true, false, ◌&&◌, Option, none, some, if◌then◌else◌, ◌==◌,
  str_eq, nat_eq, leb, ◌≡◌, is_some,
}
use hwarr.Engine.Cleanup.{CleanupRedis}

-- The score of a member of the sorted set under a key, and whether a set has a member.
pub record View (R : Type 0) : Type 0 where
  pub score : R → GoString → GoString → Option ℕ
  pub listed : R → GoString → GoString → Bool

-- A score that is kept when those up to a bound are removed.
abbrev pub above : ℕ → Option ℕ → Option ℕ
above bound none = none
above bound (some score) = if leb score bound then none else some score

pub record CleanupLaws {R : Type 0} (ops : CleanupRedis R) (v : View R) : Type 0 where
  pub removes :
      (r : R) (key : GoString) (bound : ℕ) (k m : GoString)
      → let after = ops.z_rem_range_by_score r key bound in
        v.score after.0 k m
        ≡ (if is_some after.1 && key == k then above bound (v.score r k m) else v.score r k m)
  pub removes_lists :
      (r : R) (key : GoString) (bound : ℕ) (k m : GoString)
      → v.listed (ops.z_rem_range_by_score r key bound).0 k m ≡ v.listed r k m
  pub counts_zero : (r : R) (key m : GoString) → ops.z_card r key ≡ some 0 → v.score r key m ≡ none
  pub counts_more :
      (r : R) (key : GoString) {n : ℕ}
      → ops.z_card r key ≡ some n
      → (n == 0) ≡ false
      → ¬ ((m : GoString) → v.score r key m ≡ none)
  pub dels :
      (r : R) (key k m : GoString)
      → v.score (ops.del r key).0 k m
        ≡ (if (ops.del r key).1 && key == k then none else v.score r k m)
  pub dels_lists :
      (r : R) (key k m : GoString)
      → (key == k) ≡ false
      → v.listed (ops.del r key).0 k m ≡ v.listed r k m
  pub rems :
      (r : R) (key grid k m : GoString)
      → v.listed (ops.s_rem r key grid).0 k m
        ≡ (if (ops.s_rem r key grid).1 && (key == k && grid == m) then false else v.listed r k m)
  pub rems_scores :
      (r : R) (key grid k m : GoString) → v.score (ops.s_rem r key grid).0 k m ≡ v.score r k m
  pub lists :
      (r : R) (key m : GoString) {grids : List GoString}
      → ops.s_members r key ≡ some grids
      → v.listed r key m ≡ true
      → contains grids m ≡ true

-- Every call succeeds.
pub record IsReliable {R : Type 0} (ops : CleanupRedis R) : Type 0 where
  pub removes_succeeds :
      (r : R) (key : GoString) (bound : ℕ) → is_some (ops.z_rem_range_by_score r key bound).1 ≡ true
  pub counts_succeeds : (r : R) (key : GoString) → is_some (ops.z_card r key) ≡ true
  pub dels_succeeds : (r : R) (key : GoString) → (ops.del r key).1 ≡ true
  pub rems_succeeds : (r : R) (key grid : GoString) → (ops.s_rem r key grid).1 ≡ true
