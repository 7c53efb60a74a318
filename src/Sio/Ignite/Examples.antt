-- ===== src/Sio/Ignite/Examples.antt =====
-- A store on which the theorems about server/internal/sio/fire_ignite.go are applied: it has the
-- laws of Redis, as long as a key has no second member.
use hwarr.Base.{
  ℕ, ◌≤◌, GoString, codes, [], ◌∷◌, Bool, true, false, ◌&&◌, Option, none, some, Result, ok,
  if◌then◌else◌, ◌==◌, str_eq, nat_eq, str_iff, str_beq, length, ◌≡◌, ◌⊎◌, refl, arith,
}
use hwarr.Base.Decimal.{atoi, itoa, parse_nat, parse_digits, digits}
use hwarr.GoMap.{get, assign, delete}
use hwarr.GoMap.Laws.{get-assign}
use hwarr.Engine.Cleanup.{fire_key, active_grids_key, run_cleanup, clean_each, Pass}
use hwarr.Engine.Cleanup.Store.{Store, store_ops, store_view, store_laws, is_member, score_of}
use hwarr.Base.Split.{split_once}
use hwarr.Grid.{get_neighbors8, parse_grid_id, print_int, grid_id, next_int, prev_int}
use hwarr.Sio.Ignite.{FireWriter, FireError, FireRegistration, register_fire_event, cascade, pick}
use hwarr.Sio.Ignite.Cascade.{IsPath, IsEnd, register_fire_event-IsPath}
use hwarr.Sio.Ignite.Registered.{FireLaws, registered_survives_cleanup}

-- A member may be added under a key that has none, or has it already.
abbrev is_free : Option (GoString × ℕ) → GoString → Bool
is_free none m = true
is_free (some (k, s)) m = k == m

abbrev is_set_free : Option GoString → GoString → Bool
is_set_free none m = true
is_set_free (some k) m = k == m

unfoldable put : Store → GoString → ℕ → GoString → Store × Bool
put r key score member =
    if is_free (get r.events key) member
    then (record r { events = assign r.events key (member, score) }, true)
    else (r, false)

unfoldable put_set : Store → GoString → GoString → Store × Bool
put_set r key m =
    if is_set_free (get r.sets key) m
    then (record r { sets = assign r.sets key m }, true)
    else (r, false)

-- One grid is full.
abbrev fires : FireWriter Store
fires = record {
  z_count = λ r key now. some (if key == codes "fire:10:20" then 500 else 1);
  z_add = put;
  s_add = put_set;
  incr = λ r key. (r, true);
  expire = λ r key seconds. (r, true);
  z_incr_by = λ r key by member. (r, true);
}

free-score :
    (o : Option (GoString × ℕ)) (member m : GoString)
    → is_free o member ≡ true
    → (member == m) ≡ false
    → score_of o m ≡ none
free-score none member m h n = refl
free-score (some (k, s)) member m h n = ground (arith, h, n, str_iff k member)

free-member :
    (o : Option GoString) (grid m : GoString)
    → is_set_free o grid ≡ true
    → (grid == m) ≡ false
    → is_member o m ≡ false
free-member none grid m h n = refl
free-member (some k) grid m h n = ground (arith, h, n, str_iff k grid)

put-score :
    (r : Store) (key : GoString) (score : ℕ) (member k m : GoString)
    → score_of (get (put r key score member).0.events k) m ≡ (
        if (put r key score member).1 && (key == k && member == m)
        then some score
        else score_of (get r.events k) m)
unfolding put
put-score r key score member k m = ground (
  arith,
  get-assign r.events key k (member, score),
  str_iff key k,
  free-score (get r.events key) member m,
)

put-listed :
    (r : Store) (key : GoString) (score : ℕ) (member k m : GoString)
    → is_member (get (put r key score member).0.sets k) m ≡ is_member (get r.sets k) m
unfolding put
put-listed r key score member k m = ground arith

put_set-listed :
    (r : Store) (key grid k m : GoString)
    → is_member (get (put_set r key grid).0.sets k) m ≡ (
        if (put_set r key grid).1 && (key == k && grid == m)
        then true
        else is_member (get r.sets k) m)
unfolding put_set
put_set-listed r key grid k m =
    ground (arith, get-assign r.sets key k grid, str_iff key k, free-member (get r.sets key) grid m)

put_set-score :
    (r : Store) (key grid k m : GoString)
    → score_of (get (put_set r key grid).0.events k) m ≡ score_of (get r.events k) m
unfolding put_set
put_set-score r key grid k m = ground arith

fire_laws : FireLaws fires store_view
fire_laws = record {
  adds = put-score;
  adds_lists = put-listed;
  lists = put_set-listed;
  lists_scores = put_set-score;
  incrs = λ r key k m h. (refl, refl);
  expires = λ r key seconds k m h. (refl, refl);
  ranks = λ r key by member k m h. (refl, refl);
}

abbrev quiet : Store
quiet = record { events = []; sets = [] }

-- The fire spreads from the full grid to the first of its neighbours.
abbrev spread : FireRegistration
spread = record {
  grid_id = codes "9:19";
  active_count = 1;
  spread_path = (codes "10:20", codes "9:19") ∷ [];
}

abbrev result : Store × Result FireError FireRegistration
result =
    register_fire_event fires quiet 100 (λ i. 8) (codes "10:20") (codes "e1") 43300
      (codes "2026-01-01") (λ grid. grid)

result_spread : result.1 ≡ ok spread
unfolding register_fire_event cascade get_neighbors8 parse_grid_id split_once print_int grid_id
    next_int prev_int atoi itoa parse_nat parse_digits digits pick put put_set str_beq get assign
    delete
result_spread = refl

register_fire_event-IsPath_example :
    IsPath fires quiet 100 (codes "10:20") spread.spread_path spread.grid_id
    × (length spread.spread_path ≤ 8)
    × ((length spread.spread_path ≡ 8) ⊎ IsEnd fires quiet 100 spread.grid_id)
register_fire_event-IsPath_example =
    register_fire_event-IsPath fires quiet 100 (λ i. 8) (codes "10:20") (codes "e1") 43300
      (codes "2026-01-01") (λ grid. grid) {reg = spread} result_spread

-- A pass ten minutes later.
abbrev after_pass : Pass Store
after_pass =
    clean_each store_ops (record { redis = result.0; tracker = none; cleaned = 0 }) 700
      (codes "9:19" ∷ [])

passed : run_cleanup store_ops result.0 none 700 ≡ some after_pass
unfolding run_cleanup register_fire_event cascade get_neighbors8 parse_grid_id split_once print_int
    grid_id next_int prev_int atoi itoa parse_nat parse_digits digits pick put put_set str_beq get
    assign delete
passed = refl

registered_survives_cleanup_example :
    (store_view.score after_pass.redis (fire_key (codes "9:19")) (codes "e1") ≡ some 43300)
    × (store_view.listed after_pass.redis active_grids_key (codes "9:19") ≡ true)
registered_survives_cleanup_example =
    registered_survives_cleanup fires store_ops store_view fire_laws store_laws quiet 100 (λ i. 8)
      (codes "10:20") (codes "e1") 43300 (codes "2026-01-01") (λ grid. grid) {reg = spread} 700 none
      {p = after_pass} result_spread (omega arith) passed
