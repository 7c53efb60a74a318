-- ===== src/Sio/Ignite/Handler/Handled.antt =====
-- What the handlers of server/internal/sio/fire_ignite.go and fire_compat.go leave.
use hwarr.Base.{
  ◌+◌, Bool, true, false, sym, ◌⊎◌, GoString, Option, none, some, Result, ok, err, length, ltb,
  codes, if◌then◌else◌, ◌==◌, str_eq, ◌≡◌, refl, ◌∙◌, Bool-cases, inl, inr,
}
use hwarr.GoMap.{get}
use hwarr.GoMap.Laws.{get-assign}
use hwarr.Model.Fire.{get_stage, build_grid_state}
use hwarr.Socketio.Namespace.{World}
use hwarr.Socketio.Server.{Config}
use hwarr.Sio.Chat.Departure.{spaces-broadcast_to_namespace}
use hwarr.Sio.Viewport.{main_namespace}
use hwarr.Sio.FireBatcher.{FireBatcher, FireUpdate, enqueue}
use hwarr.Sio.Ignite.{FireWriter, FireError, FireRegistration, register_fire_event}
use hwarr.Sio.Ignite.Payloads.{IgniteData, DemoLocation, Occasion, locate, ignite_update}
use hwarr.Sio.Ignite.Handler.{register_at, tell_spread, tell_ignite, fire_ignite, located, ignited}

module _ {F : Type 0} where
  -- Where a fire is lit: at the coordinates that are given; where one is missing, a demo is lit at
  -- the location that was drawn, and anything else nowhere.
  abbrev where_is : DemoLocation F → Option F → Option F → Bool → Option (F × F)
  where_is location (some lat) (some lng) demo = some (lat, lng)
  where_is location (some lat) none true = some (location.lat, location.lng)
  where_is location (some lat) none false = none
  where_is location none lng true = some (location.lat, location.lng)
  where_is location none lng false = none

  -- A payload that is missing or does not parse lights nothing.
  abbrev pub lit_at : DemoLocation F → Option (IgniteData F) → Option (F × F)
  lit_at location none = none
  lit_at location (some input) = where_is location input.lat input.lng input.demo

  abbrev without_name : Option (F × F × GoString) → Option (F × F)
  without_name none = none
  without_name (some (lat, lng, name)) = some (lat, lng)

  locate-lit_at :
      (location : DemoLocation F) (input : IgniteData F)
      → without_name (locate location input) ≡ lit_at location (some input)
  unfolding locate
  locate-lit_at location input = go input.lat input.lng input.demo
    where
      go :
          (lat lng : Option F) (demo : Bool)
          → without_name (locate location (record { lat = lat; lng = lng; demo = demo }))
            ≡ where_is location lat lng demo
      go none lng true = refl
      go none lng false = refl
      go (some lat) none true = refl
      go (some lat) none false = refl
      go (some lat) (some lng) demo = refl

module _ {R A F : Type 0} (c : Config A F) (ops : FireWriter R) (o : Occasion F) where
  spaces-tell_spread :
      (reg : FireRegistration) (w : World A) → (tell_spread c ops o reg w).spaces ≡ w.spaces
  unfolding tell_spread
  spaces-tell_spread reg w = elim (Bool-cases (ltb 0 (length reg.spread_path))) [
    | inl e ↦ rw e (spaces-broadcast_to_namespace c main_namespace (codes "fire:spread") _ w)
    | inr e ↦ rw e refl
  ]

  spaces-tell_ignite :
      (sid : GoString) (lat lng : F) (reg : FireRegistration) (w : World A)
      → (tell_ignite c ops o sid lat lng reg w).spaces ≡ w.spaces
  unfolding tell_ignite
  spaces-tell_ignite sid lat lng reg w =
      spaces-tell_spread reg _
      ∙ spaces-broadcast_to_namespace c main_namespace (codes "fire:update") _ _
      ∙ spaces-broadcast_to_namespace c main_namespace (codes "fire:ignite") _ w

  -- What Redis is left with and answers, where a fire is lit; it burns for 12 hours.
  abbrev pub registered : Option (F × F) → R → Option (R × Result FireError FireRegistration)
  registered none r = none
  registered (some (lat, lng)) r = some (
      register_fire_event ops r o.now o.draws (o.to_grid_id lat lng) o.event_id (o.now + 43200)
        o.today o.member_of)

  abbrev pub redis_after : Option (R × Result FireError FireRegistration) → R → R
  redis_after none r = r
  redis_after (some (s, result)) r = s

  abbrev pub has_landed : Option (R × Result FireError FireRegistration) → Bool
  has_landed none = false
  has_landed (some (s, err e)) = false
  has_landed (some (s, ok reg)) = true

  -- The update that waits for a grid when the run has left one.
  abbrev pub queued :
      Option (R × Result FireError FireRegistration)
      → GoString
      → Option (FireUpdate F)
      → Option (FireUpdate F)
  queued none g before = before
  queued (some (s, err e)) g before = before
  queued (some (s, ok reg)) g before =
      if reg.grid_id == g
      then some (record {
        grid_id = reg.grid_id;
        active_count = reg.active_count;
        stage = get_stage reg.active_count;
        event_id = o.event_id;
        timestamp = o.timestamp;
        lat = none;
        lng = none;
      })
      else before

  -- What a run leaves.
  abbrev pub HasIgnited :
      Option (R × Result FireError FireRegistration)
      → GoString
      → R × World A × FireBatcher F
      → R × World A × FireBatcher F
      → Type 0
  HasIgnited result g before after =
      (after.0 ≡ redis_after result before.0)
      × (after.1.spaces ≡ before.1.spaces)
      × ((has_landed result ≡ true) ⊎ (after.1 ≡ before.1))
      × (get after.2.pending g ≡ queued result g (get before.2.pending g))

  ignited-HasIgnited :
      (sid : GoString) (demo : Bool) (at : F × F × GoString) (r : R) (w : World A)
      (b : FireBatcher F) (g : GoString) (d : R × Result FireError FireRegistration)
      → HasIgnited (some d) g (r, w, b) (ignited c ops o sid demo at (w, b) d).0
  unfolding enqueue ignite_update build_grid_state
  ignited-HasIgnited sid demo at r w b g (s, err e) = (refl, refl, inr refl, refl)
  ignited-HasIgnited sid demo at r w b g (s, ok reg) = (
    refl,
    spaces-tell_ignite sid at.0 at.1 reg w,
    inl refl,
    get-assign b.pending reg.grid_id g (ignite_update o reg),
  )

  located-HasIgnited :
      (sid : GoString) (demo : Bool) (at : Option (F × F × GoString)) (r : R) (w : World A)
      (b : FireBatcher F) (g : GoString)
      → HasIgnited
          (registered (without_name at) r)
          g
          (r, w, b)
          (located c ops o sid demo at (r, w, b)).0
  unfolding register_at
  located-HasIgnited sid demo none r w b g = (refl, refl, inr refl, refl)
  located-HasIgnited sid demo (some at) r w b g =
      ignited-HasIgnited sid demo at r w b g (register_at c ops o r (o.to_grid_id at.0 at.1))

  -- "fire:ignite" lights a fire at the coordinates of the payload; where one of them is missing,
  -- at the demo location if the payload is a demo, and nowhere if it is not or if the payload is
  -- missing or does not parse. Redis is left as the registration of a fire there, which burns for
  -- 43200 seconds, leaves it, or untouched; sockets and rooms stay as they are, and nothing is
  -- sent unless the fire was registered. If it was, its update, with the count that the
  -- registration gives, the stage of that count, the event and the time, replaces the one that
  -- waited for the grid where it landed; no other grid's update changes.
  pub fire_ignite_lem :
      (sid : GoString) (input : Option (IgniteData F)) (r : R) (w : World A) (b : FireBatcher F)
      (g : GoString)
      → HasIgnited
          (registered (lit_at o.location input) r)
          g
          (r, w, b)
          (fire_ignite c ops o sid input (r, w, b)).0
  unfolding fire_ignite
  fire_ignite_lem sid none r w b g = (refl, refl, inr refl, refl)
  fire_ignite_lem sid (some input) r w b g =
      rw (sym (locate-lit_at o.location input))
        (located-HasIgnited sid input.demo (locate o.location input) r w b g)
