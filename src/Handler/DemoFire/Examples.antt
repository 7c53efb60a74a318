-- ===== src/Handler/DemoFire/Examples.antt =====
-- A registration on which the theorem about server/internal/handler/demo_fire.go is applied.
use hwarr.Base.{ℕ, suc, codes, [], ◌∷◌, true, some, ◌≡◌, refl}
use hwarr.Sio.Ignite.{FireWriter, register_fire_event}
use hwarr.Handler.DemoFire.{register_fire, format_ids}
use hwarr.Handler.DemoFire.Agreement.{unwrap, register_fire-register_fire_event}

-- A Redis that only counts the events that were added.
abbrev counter : FireWriter ℕ
counter = record {
  z_count = λ r key now. some 600;
  z_add = λ r key score member. (suc r, true);
  s_add = λ r key member. (r, true);
  incr = λ r key. (r, true);
  expire = λ r key seconds. (r, true);
  z_incr_by = λ r key by member. (r, true);
}

register_fire-register_fire_event_example :
    let other =
      register_fire_event counter 0 100
        (λ i. i)
        (codes "10:20")
        (codes "e1")
        43300
        (codes "2026-01-01")
        (λ grid. grid) in
    register_fire counter 0 100
      (λ i. i)
      (codes "10:20")
      (codes "e1")
      43300
      (codes "2026-01-01")
      (λ grid. grid)
    ≡ (other.0, unwrap other.1)
register_fire-register_fire_event_example =
    register_fire-register_fire_event counter 0 100 (λ i. i) (codes "10:20") (codes "e1") 43300
      (codes "2026-01-01") (λ grid. grid)

two_ids : format_ids (codes "coex" ∷ codes "namsan" ∷ []) ≡ codes "['coex', 'namsan']"
unfolding format_ids
two_ids = refl
