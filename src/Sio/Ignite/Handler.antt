-- ===== src/Sio/Ignite/Handler.antt =====
-- The handlers of "fire:ignite" and "fire" in server/internal/sio/fire_ignite.go and fire_compat.go.
-- A payload is parsed by a parameter, none where it is missing or does not parse.
pub mod Handled
mod Examples
use hwarr.Base.{
  ◌+◌, GoString, codes, [], ◌∷◌, Bool, Option, none, some, Result, ok, err, ltb, length,
  if◌then◌else◌, ◌==◌, str_eq,
}
use hwarr.Socketio.Namespace.{World}
use hwarr.Socketio.Packet.Binary.{Node, float, text, arr, obj, field, end}
use hwarr.Socketio.Server.{Config}
use hwarr.Socketio.Server.Broadcast.{broadcast_to_namespace}
use hwarr.Sio.Viewport.{main_namespace}
use hwarr.Sio.FireBatcher.{FireBatcher, FireUpdate, enqueue}
use hwarr.Sio.FireState.{int_field}
use hwarr.Sio.Ignite.{FireWriter, FireError, FireRegistration, register_fire_event}
use hwarr.Sio.Ignite.Payloads.{
  IgniteData, Occasion, fire_ttl_sec, locate, error_node, hop_nodes, state_of, ignite_payload,
  ignite_update, ignite_answer,
}

-- Redis, the sockets and rooms, and the batcher.
abbrev pub Site : Type 0 → Type 0 → Type 0 → Type 0
Site R A F = R × World A × FireBatcher F

module _ {R A F : Type 0} (c : Config A F) (ops : FireWriter R) (o : Occasion F) where
  unfoldable pub register_at : R → GoString → R × Result FireError FireRegistration
  unfolding register_fire_event
  register_at r grid =
      register_fire_event ops r o.now o.draws grid o.event_id (o.now + fire_ttl_sec) o.today
        o.member_of

  abbrev pub tell : GoString → Node F → World A → World A
  tell event payload w = (broadcast_to_namespace c main_namespace event (payload ∷ []) w).0

  -- The animation goes out only where the fire has spread.
  unfoldable pub tell_spread : FireRegistration → World A → World A
  tell_spread reg w =
      if ltb 0 (length reg.spread_path)
      then tell (codes "fire:spread")
          (obj (
            field (codes "path") (arr (hop_nodes reg.spread_path)) (
              field (codes "event_id") (text o.event_id)
                (field (codes "timestamp") (float o.timestamp) end))))
          w
      else w

  abbrev pub update_node : FireRegistration → Node F
  update_node reg = obj (
      field (codes "gridId") (text reg.grid_id) (
        int_field (codes "activeCount") reg.active_count
          (int_field (codes "stage") (state_of {F = F} reg none none).stage end)))

  unfoldable pub tell_ignite : GoString → F → F → FireRegistration → World A → World A
  unfolding ignite_payload tell_spread broadcast_to_namespace
  tell_ignite sid lat lng reg w = tell_spread reg (
      tell (codes "fire:update") (update_node reg)
        (tell (codes "fire:ignite") (ignite_payload o sid lat lng reg) w))

  abbrev pub ignited :
      GoString
      → Bool
      → F × F × GoString
      → World A × FireBatcher F
      → R × Result FireError FireRegistration
      → Site R A F × Node F
  ignited sid demo at (w, b) (r, err e) =
      ((r, w, b), error_node (codes "failed to register fire event"))
  ignited sid demo at (w, b) (r, ok reg) = (
    (r, tell_ignite sid at.0 at.1 reg w, enqueue b (ignite_update o reg)),
    ignite_answer o demo at.0 at.1 at.2 (o.to_grid_id at.0 at.1) reg,
  )

  abbrev pub located :
      GoString → Bool → Option (F × F × GoString) → Site R A F → Site R A F × Node F
  located sid demo none site = (site, error_node (codes "lat and lng are required"))
  located sid demo (some at) (r, w, b) =
      ignited sid demo at (w, b) (register_at r (o.to_grid_id at.0 at.1))

  unfoldable pub fire_ignite : GoString → Option (IgniteData F) → Site R A F → Site R A F × Node F
  unfolding locate register_at tell_ignite ignite_update ignite_answer enqueue
  fire_ignite sid none site = (site, error_node (codes "lat and lng are required"))
  fire_ignite sid (some input) site = located sid input.demo (locate o.location input) site

  -- Where the fire has spread, the centre of the grid where it landed.
  unfoldable pub compat_at : GoString → F × F → FireRegistration → F × F
  compat_at requested at reg =
      if reg.grid_id == requested
      then at
      else elim (o.center reg.grid_id) [ none ↦ at | some moved ↦ moved ]

  unfoldable pub compat_update : F × F → FireRegistration → FireUpdate F
  compat_update at reg = record {
    grid_id = reg.grid_id;
    active_count = reg.active_count;
    stage = (state_of reg (some at.0) (some at.1)).stage;
    event_id = [];
    timestamp = o.zero_time;
    lat = some at.0;
    lng = some at.1;
  }

  abbrev pub compat_registered :
      F × F → FireBatcher F → R × Result FireError FireRegistration → R × FireBatcher F
  compat_registered at b (r, err e) = (r, b)
  compat_registered at b (r, ok reg) =
      (r, enqueue b (compat_update (compat_at (o.to_grid_id at.0 at.1) at reg) reg))

  abbrev pub compat_located : Option F → Option F → R × FireBatcher F → R × FireBatcher F
  compat_located (some lat) (some lng) (r, b) =
      compat_registered (lat, lng) b (register_at r (o.to_grid_id lat lng))
  compat_located _ _ state = state

  -- "fire"; there is no answer.
  unfoldable pub fire_compat : Option (IgniteData F) → R × FireBatcher F → R × FireBatcher F
  unfolding register_at compat_at compat_update enqueue
  fire_compat none state = state
  fire_compat (some input) state = compat_located input.lat input.lng state
