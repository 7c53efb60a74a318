-- ===== src/Sio/Ignite/Handler/Examples.antt =====
-- A fire, on which the theorem about the handlers of server/internal/sio/fire_ignite.go is applied.
use hwarr.Base.{ℕ, suc, codes, true, none, some, str_eq, ◌≡◌, map_option, refl, str_beq}
use hwarr.GoMap.{get, assign}
use hwarr.Sio.Examples.{server, quiet}
use hwarr.Sio.FireBatcher.{new_fire_batcher}
use hwarr.Sio.Ignite.{FireWriter}
use hwarr.Sio.Ignite.Payloads.{IgniteData, Occasion}
use hwarr.Sio.Ignite.Handler.{fire_ignite}
use hwarr.Sio.Ignite.Handler.Handled.{registered, HasIgnited, fire_ignite_lem}

-- A Redis that only counts the events that were added.
abbrev counter : FireWriter ℕ
counter = record {
  z_count = λ r key now. some r;
  z_add = λ r key score member. (suc r, true);
  s_add = λ r key member. (r, true);
  incr = λ r key. (r, true);
  expire = λ r key seconds. (r, true);
  z_incr_by = λ r key by member. (r, true);
}

abbrev occasion : Occasion ℕ
occasion = record {
  now = 100;
  timestamp = 100;
  zero_time = 0;
  event_id = codes "fire-0123456789ab";
  today = codes "2026-01-01";
  draws = λ i. i;
  location = record {
    id = codes "coex";
    name = codes "COEX";
    lat = 37;
    lng = 127;
    description = codes "Seoul";
  };
  to_grid_id = λ lat lng. codes "10:20";
  center = λ grid. none;
  member_of = λ grid. grid;
}

-- A demo without a longitude.
abbrev click : IgniteData ℕ
click = record { lat = some 1; lng = none; demo = true }

fire_ignite_lem_example :
    HasIgnited server counter occasion
      (registered server counter occasion (some (37, 127)) 0)
      (codes "10:20")
      (0, quiet, new_fire_batcher)
      (fire_ignite server counter occasion (codes "s1") (some click) (0, quiet, new_fire_batcher)).0
fire_ignite_lem_example =
    fire_ignite_lem server counter occasion (codes "s1") (some click) 0 quiet new_fire_batcher
      (codes "10:20")

-- The fire of the demo is registered, and its update waits.
demo_is_queued :
    map_option
      (λ u. u.active_count)
      (get
        (fire_ignite server counter occasion
          (codes "s1")
          (some click)
          (0, quiet, new_fire_batcher)).0.2.pending
        (codes "10:20"))
    ≡ some 1
unfolding get fire_ignite assign str_beq
demo_is_queued = refl
