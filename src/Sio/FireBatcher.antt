-- ===== src/Sio/FireBatcher.antt =====
-- server/internal/sio/fire_batcher.go: the pending map and flush, which one tick of the loop runs.
-- A failed broadcast is only logged. A float64 is a type `F`.
pub mod Coalescing
use hwarr.Base.{ℕ, GoString, [], ◌∷◌, codes, Option, none, some, str_eq}
use hwarr.Base.Decimal.{pos}
use hwarr.GoMap.{GoMap, assign}
use hwarr.Socketio.Namespace.{World}
use hwarr.Socketio.Packet.Binary.{Node, Fields, int, float, text, obj, field, end}
use hwarr.Socketio.Server.{Config}
use hwarr.Socketio.Server.Broadcast.{broadcast_to_namespace}

pub record FireUpdate (F : Type 0) : Type 0 where
  pub grid_id : GoString
  pub active_count : ℕ
  pub stage : ℕ
  pub event_id : GoString
  pub timestamp : F
  pub lat : Option F
  pub lng : Option F

pub record FireBatcher (F : Type 0) : Type 0 where
  pub pending : GoMap GoString (FireUpdate F)

module _ {F : Type 0} where
  unfoldable pub new_fire_batcher : FireBatcher F
  new_fire_batcher = record { pending = [] }

  unfoldable pub enqueue : FireBatcher F → FireUpdate F → FireBatcher F
  enqueue b update = record { pending = assign b.pending update.grid_id update }

  abbrev optional : GoString → Option F → Fields F → Fields F
  optional key none rest = rest
  optional key (some x) rest = field key (float x) rest

  unfoldable pub update_payload : FireUpdate F → Node F
  update_payload u = obj (
      field (codes "gridId") (text u.grid_id) (
        field (codes "activeCount") (int (pos u.active_count)) (
          field (codes "stage") (int (pos u.stage))
            (optional (codes "lat") u.lat (optional (codes "lng") u.lng end)))))

module _ {A F : Type 0} (c : Config A F) where
  -- The loop of flush over the batch.
  unfoldable pub send_batch : GoMap GoString (FireUpdate F) → World A → World A
  unfolding update_payload
  send_batch [] w = w
  send_batch ((grid, u) ∷ batch) w =
      send_batch batch
        (broadcast_to_namespace c (codes "/") (codes "fire:update") (update_payload u ∷ []) w).0

  unfoldable pub flush : FireBatcher F → World A → FireBatcher F × World A
  unfolding send_batch
  flush b w = (record { pending = [] }, send_batch b.pending w)
