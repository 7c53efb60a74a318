-- ===== src/Handler/DemoFire/Agreement.antt =====
-- The registration of server/internal/handler/demo_fire.go against that of
-- server/internal/sio/fire_ignite.go.
use hwarr.Base.{
  ℕ, zero, suc, GoString, Bool, true, false, Option, none, some, Result, ok, err, ltb, ◌≡◌, refl,
  sym, ap, ◌∙◌, Option-cases, Bool-cases, inl, inr,
}
use hwarr.Grid.{get_neighbors8}
use hwarr.Engine.Cleanup.{fire_key, active_grids_key}
use hwarr.Sio.Ignite.{
  FireWriter, FireError, FireRegistration, Landing, pick, fire_spread_threshold,
  fire_max_cascade_depth, cascade, with_hop, land, add_event, add_active, add_total, add_day,
  final_count, register_fire_event, total_key,
}
use hwarr.Handler.DemoFire.{
  RedisError, redis_error, hop_then, Registered, spread, register_fire, landed, after_event,
  after_active, after_total, after_day, last_count,
}

-- The error without what it wraps.
abbrev pub unwrap {ℓ} : {X : Type ℓ} → Result FireError X → Result RedisError X
unwrap (ok x) = ok x
unwrap (err e) = err redis_error

unwrap-with_hop :
    (hop : GoString × GoString) (l : Result FireError Landing)
    → unwrap (with_hop hop l) ≡ hop_then hop (unwrap l)
unwrap-with_hop hop (ok (grid, path)) = refl
unwrap-with_hop hop (err e) = refl

module _ {R : Type 0} (ops : FireWriter R) where
  spread-cascade :
      (r : R) (now : ℕ) (draws : ℕ → ℕ) (n : ℕ) (grid : GoString)
      → spread ops r now draws n grid ≡ unwrap (cascade ops r now draws n grid)
  unfolding spread cascade
  spread-cascade r now draws zero grid = refl
  spread-cascade r now draws (suc n) grid =
      elim (Option-cases (ops.z_count r (fire_key grid) now)) [
        | inl e ↦ rw (e, spread, cascade) refl
        | inr (count, e) ↦ elim (Option-cases (get_neighbors8 grid)) [
          | inl f ↦ rw (e, f, spread, cascade) refl
          | inr (ns, f) ↦ elim (Bool-cases (ltb count fire_spread_threshold)) [
            | inl l ↦ rw (e, f, l, spread, cascade) refl
            | inr l ↦
                let next = pick ns (draws n) grid in
                rw (e, f, l, spread, cascade)
                  (ap (hop_then (grid, next)) (spread-cascade r now draws n next)
                    ∙ sym (unwrap-with_hop (grid, next) (cascade ops r now draws n next)))
          ]
        ]
      ]

  abbrev Same : Registered R → R × Result FireError FireRegistration → Type 0
  Same a b = a ≡ (b.0, unwrap b.1)

  last-final :
      (now : ℕ) (r : R) (landing : Landing) (o : Option ℕ)
      → Same (last_count ops r landing o) (final_count ops r now landing o)
  last-final now r landing none = refl
  last-final now r landing (some count) = refl

module _ {R : Type 0} (ops : FireWriter R) (now : ℕ) (today ranking member : GoString)
    (landing : Landing) where
  day-day :
      (p : R × Bool)
      → Same ops
          (after_day ops now today ranking member landing p)
          (add_day ops now today ranking member landing p)
  day-day (r, false) = refl
  day-day (r, true) = last-final ops now _ landing _

  total-total :
      (p : R × Bool)
      → Same ops
          (after_total ops now today ranking member landing p)
          (add_total ops now today ranking member landing p)
  total-total (r, false) = refl
  total-total (r, true) = day-day (ops.incr r today)

  active-active :
      (p : R × Bool)
      → Same ops
          (after_active ops now today ranking member landing p)
          (add_active ops now today ranking member landing p)
  active-active (r, false) = refl
  active-active (r, true) = total-total (ops.incr r total_key)

  event-event :
      (p : R × Bool)
      → Same ops
          (after_event ops now today ranking member landing p)
          (add_event ops now today ranking member landing p)
  event-event (r, false) = refl
  event-event (r, true) = active-active (ops.s_add r active_grids_key landing.0)

-- The registration of the demo endpoint leaves in Redis what that of the Socket.IO handler
-- leaves, and gives the same grid, count and path, or an error where that gives one.
pub register_fire-register_fire_event :
    {R : Type 0} (ops : FireWriter R) (r : R) (now : ℕ) (draws : ℕ → ℕ) (grid event : GoString)
    (expire_at : ℕ) (today : GoString) (member_of : GoString → GoString)
    → let other = register_fire_event ops r now draws grid event expire_at today member_of in
      register_fire ops r now draws grid event expire_at today member_of ≡ (other.0, unwrap other.1)
unfolding register_fire register_fire_event
register_fire-register_fire_event ops r now draws grid event expire_at today member_of =
    ap (landed ops r now event expire_at today member_of)
      (spread-cascade ops r now draws fire_max_cascade_depth grid)
    ∙ go (cascade ops r now draws fire_max_cascade_depth grid)
  where
    go :
        (l : Result FireError Landing)
        → Same ops
            (landed ops r now event expire_at today member_of (unwrap l))
            (land ops r now event expire_at today member_of l)
    go (err e) = refl
    go (ok landing) =
        event-event ops now _ _ (member_of landing.0) landing
          (ops.z_add r (fire_key landing.0) expire_at event)
