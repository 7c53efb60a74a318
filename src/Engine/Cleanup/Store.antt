-- ===== src/Engine/Cleanup/Store.antt =====
-- A store that keeps at most one member under a key, with the laws of Redis on which
-- server/internal/engine/cleanup.go relies.
use hwarr.Base.{
  contains, ℕ, GoString, List, [], ◌∷◌, Bool, true, false, ◌&&◌, Option, none, some, if◌then◌else◌,
  ◌==◌, str_eq, nat_eq, str_iff, leb, ◌≡◌, ◌↔◌, refl, arith,
}
use hwarr.GoMap.{GoMap, get, delete}
use hwarr.GoMap.Laws.{get-delete}
use hwarr.Engine.Cleanup.{CleanupRedis}
use hwarr.Engine.Cleanup.Laws.{CleanupLaws, IsReliable, View, above}

pub record Store : Type 0 where
  pub events : GoMap GoString (GoString × ℕ)
  pub sets : GoMap GoString GoString

abbrev pub score_of : Option (GoString × ℕ) → GoString → Option ℕ
score_of none m = none
score_of (some (k, s)) m = if k == m then some s else none

abbrev pub is_old : Option (GoString × ℕ) → ℕ → Bool
is_old none bound = false
is_old (some (k, s)) bound = leb s bound

abbrev pub is_member : Option GoString → GoString → Bool
is_member none m = false
is_member (some k) m = k == m

abbrev pub the_list : Option GoString → List GoString
the_list none = []
the_list (some k) = k ∷ []

pub is_member_iff : (o : Option GoString) (m : GoString) → (is_member o m ≡ true) ↔ (o ≡ some m)
is_member_iff none m = ground arith
is_member_iff (some k) m = ground (arith, str_iff k m)

abbrev pub card : Option (GoString × ℕ) → ℕ
card none = 0
card (some entry) = 1

unfoldable pub one_removed : Store → GoString → ℕ → Store
one_removed r key bound =
    if is_old (get r.events key) bound then record r { events = delete r.events key } else r

unfoldable pub set_removed : Store → GoString → GoString → Store
set_removed r key m =
    if is_member (get r.sets key) m then record r { sets = delete r.sets key } else r

abbrev pub store_ops : CleanupRedis Store
store_ops = record {
  s_members = λ r key. some (the_list (get r.sets key));
  z_rem_range_by_score = λ r key bound. (one_removed r key bound, some 1);
  z_card = λ r key. some (card (get r.events key));
  del = λ r key. (record r { events = delete r.events key; sets = delete r.sets key }, true);
  s_rem = λ r key m. (set_removed r key m, true);
}

abbrev pub store_view : View Store
store_view = record {
  score = λ r key m. score_of (get r.events key) m;
  listed = λ r key m. is_member (get r.sets key) m;
}

one_removed-score :
    (r : Store) (key : GoString) (bound : ℕ) (k m : GoString)
    → score_of (get (one_removed r key bound).events k) m ≡ (
        if key == k then above bound (score_of (get r.events k) m) else score_of (get r.events k) m)
unfolding one_removed
one_removed-score r key bound k m = ground (arith, get-delete r.events key k, str_iff key k)

one_removed-listed :
    (r : Store) (key : GoString) (bound : ℕ) (k m : GoString)
    → is_member (get (one_removed r key bound).sets k) m ≡ is_member (get r.sets k) m
unfolding one_removed
one_removed-listed r key bound k m = ground arith

set_removed-listed :
    (r : Store) (key grid k m : GoString)
    → is_member (get (set_removed r key grid).sets k) m
      ≡ (if (key == k) && (grid == m) then false else is_member (get r.sets k) m)
unfolding set_removed
set_removed-listed r key grid k m = ground (
  arith,
  get-delete r.sets key k,
  str_iff key k,
  str_iff grid m,
  is_member_iff (get r.sets key) grid,
  is_member_iff (get r.sets key) m,
)

set_removed-score :
    (r : Store) (key grid k m : GoString)
    → score_of (get (set_removed r key grid).events k) m ≡ score_of (get r.events k) m
unfolding set_removed
set_removed-score r key grid k m = ground arith

empty-score :
    (r : Store) (key m : GoString)
    → some (card (get r.events key)) ≡ some 0
    → score_of (get r.events key) m ≡ none
empty-score r key m h = ground (arith, h)

full-score :
    (r : Store) (key : GoString) {n : ℕ}
    → some (card (get r.events key)) ≡ some n
    → (n == 0) ≡ false
    → ¬ ((m : GoString) → score_of (get r.events key) m ≡ none)
full-score r key {n} h z f = go (get r.events key) h f
  where
    go :
        (o : Option (GoString × ℕ))
        → some (card o) ≡ some n
        → ((m : GoString) → score_of o m ≡ none)
        → ⊥
    go none e g = ground (arith, e, z)
    go (some (k, s)) e g = ground (arith, g k, str_iff k k)

pub deleted-score :
    (r : Store) (key k m : GoString)
    → score_of (get (delete r.events key) k) m
      ≡ (if key == k then none else score_of (get r.events k) m)
deleted-score r key k m = ground (arith, get-delete r.events key k)

deleted-listed :
    (r : Store) (key k m : GoString)
    → (key == k) ≡ false
    → is_member (get (delete r.sets key) k) m ≡ is_member (get r.sets k) m
deleted-listed r key k m h = ground (arith, h, get-delete r.sets key k)

listed-contains :
    (r : Store) (key m : GoString) {grids : List GoString}
    → some (the_list (get r.sets key)) ≡ some grids
    → is_member (get r.sets key) m ≡ true
    → contains grids m ≡ true
listed-contains r key m {grids} e h = go (get r.sets key) e h
  where
    go :
        (o : Option GoString)
        → some (the_list o) ≡ some grids
        → is_member o m ≡ true
        → contains grids m ≡ true
    go none d k = absurd (ground (arith, k))
    go (some x) d k = ground (arith, d, k)

pub store_laws : CleanupLaws store_ops store_view
store_laws = record {
  removes = one_removed-score;
  removes_lists = one_removed-listed;
  counts_zero = empty-score;
  counts_more = full-score;
  dels = deleted-score;
  dels_lists = deleted-listed;
  rems = set_removed-listed;
  rems_scores = set_removed-score;
  lists = listed-contains;
}

pub store-IsReliable : IsReliable store_ops
store-IsReliable = record {
  removes_succeeds = λ r key bound. refl;
  counts_succeeds = λ r key. refl;
  dels_succeeds = λ r key. refl;
  rems_succeeds = λ r key grid. refl;
}
