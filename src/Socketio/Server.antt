-- ===== src/Socketio/Server.antt =====
-- server/pkg/socketio/server.go: dispatch of packets, broadcasts and rooms. The registered
-- namespaces and the send function are the server's configuration; a send function tells for each
-- socket whether the send succeeds, and `none` is a SendTo that was never set.
pub mod Broadcast
pub mod Dispatch
pub mod RoomChange
pub mod Shutdown
pub mod Results
mod Examples
use hwarr.Base.{
  GoString, List, [], ◌∷◌, Bool, Option, none, some, Result, ok, err, str_eq, codes, if◌then◌else◌,
  nat_beq, ◌>>=◌,
}
use hwarr.Base.Decimal.{pos, negsuc}
use hwarr.GoMap.{GoMap, get}
use hwarr.Socketio.Json.{JsonReader}
use hwarr.Socketio.Room
use hwarr.Socketio.Namespace.{
  World, Handlers, handle_connect, handle_disconnect, handle_event, has_socket,
}
use hwarr.Socketio.Packet.{Packet, PacketError, packet_connect, packet_disconnect, decode}
use hwarr.Socketio.Packet.Binary.{Node}
use hwarr.Socketio.Packet.Build.{
  JsonTree, or_root, is_event, is_ack, event_name, event_args, new_connect_packet,
  new_connect_error_packet, new_ack_packet,
}

pub data Failure : Type 0 where
  send_to_missing namespace_not_found no_handler unhandled_type send_failed : Failure
  packet_failure : PacketError → Failure
  handler_failure : GoString → Failure

pub record Config (A F : Type 0) : Type 0 where
  pub namespaces : GoMap GoString (Handlers (World A) (Node F))
  pub json : JsonTree F
  pub send_to : Option (GoString → Bool)

pub record DispatchResult (F : Type 0) : Type 0 where
  pub acknowledgement : Option (List (Node F))
  pub response : Option Packet

abbrev pub empty_result : {F : Type 0} → DispatchResult F
empty_result = record { acknowledgement = none; response = none }

module _ {A F : Type 0} (c : Config A F) where
  unfoldable pub get_namespace : GoString → Option (Handlers (World A) (Node F))
  get_namespace path = get c.namespaces (or_root path)

  -- The world, the result (`none` for nil) and the error.
  abbrev pub Outcome : Type 0
  Outcome = World A × Option (DispatchResult F) × Option Failure

  abbrev pub respond : World A → Option Failure → Result PacketError Packet → Outcome
  respond w failure (ok p) =
      (w, some (record { acknowledgement = none; response = some p }), failure)
  respond w failure (err e) = (w, none, some (packet_failure e))

  abbrev pub answer_connect : GoString → GoString → World A × Option GoString → Outcome
  answer_connect namespace sid (w, none) = respond w none (new_connect_packet c.json namespace sid)
  answer_connect namespace sid (w, some e) =
      respond w (some (handler_failure e)) (new_connect_error_packet c.json namespace e)

  unfoldable pub dispatch_connect : GoString → GoString → Option GoString → World A → Outcome
  unfolding get_namespace
  dispatch_connect sid namespace payload w = elim (get_namespace namespace) [
    | none ↦
        respond w (some namespace_not_found)
          (new_connect_error_packet c.json namespace (codes "Invalid namespace"))
    | some ns ↦ answer_connect namespace sid (handle_connect ns sid payload w)
  ]

  unfoldable pub dispatch_disconnect : GoString → GoString → World A → Outcome
  unfolding get_namespace
  dispatch_disconnect sid namespace w = elim (get_namespace namespace) [
    | none ↦ (w, some empty_result, none)
    | some ns ↦
        (handle_disconnect ns sid (codes "client namespace disconnect") w, some empty_result, none)
  ]

  abbrev pub acknowledge : World A × Result GoString (Option (List (Node F))) → Outcome
  acknowledge (w, ok values) =
      (w, some (record { acknowledgement = values; response = none }), none)
  acknowledge (w, err e) = (w, some empty_result, some (handler_failure e))

  abbrev pub run_event :
      GoString
      → World A
      → Handlers (World A) (Node F)
      → Result PacketError GoString
      → Result PacketError (List GoString)
      → Outcome
  run_event sid w ns (err e) args = (w, none, some (packet_failure e))
  run_event sid w ns (ok event) (err e) = (w, none, some (packet_failure e))
  run_event sid w ns (ok event) (ok args) = elim (handle_event ns sid event args) [
    | none ↦ (w, some empty_result, some no_handler)
    | some action ↦ acknowledge (action w)
  ]

  unfoldable pub dispatch_event : GoString → Packet → World A → Outcome
  unfolding get_namespace
  dispatch_event sid p w = elim (get_namespace p.namespace) [
    | none ↦ (w, none, some namespace_not_found)
    | some ns ↦ run_event sid w ns (event_name c.json p) (event_args c.json p)
  ]

  unfoldable pub dispatch_packet_full : GoString → Packet → World A → Outcome
  unfolding dispatch_connect dispatch_disconnect dispatch_event
  dispatch_packet_full sid pkt w =
      let p = record pkt { namespace = or_root pkt.namespace } in
      if nat_beq p.type packet_connect
      then dispatch_connect sid p.namespace p.payload w
      else if nat_beq p.type packet_disconnect
      then dispatch_disconnect sid p.namespace w
      else if is_event p.type
      then dispatch_event sid p w
      else if is_ack p.type
      then (w, some empty_result, none)
      else (w, none, some unhandled_type)

  -- The outcome, and the packet where the text is one.
  unfoldable pub dispatch_raw_full :
      JsonReader → GoString → GoString → World A → Outcome × Option Packet
  unfolding dispatch_packet_full
  dispatch_raw_full reader sid frame w = elim (decode reader frame) [
    | err e ↦ ((w, none, some (packet_failure e)), none)
    | ok p ↦ (dispatch_packet_full sid p w, some p)
  ]

  -- An acknowledgement is built for an id of at least 0 and values that are not nil.
  unfoldable pub build_ack_packet :
      Packet → Option (List (Node F)) → Result PacketError (Option Packet)
  build_ack_packet p none = ok none
  build_ack_packet p (some values) = elim p.id [
    | negsuc n ↦ ok none
    | pos n ↦ do ack ← new_ack_packet c.json p.namespace (pos n) values; ok (some ack)
  ]

  -- The loop of DisconnectAll, over the namespaces that the server has.
  unfoldable pub disconnect_each :
      GoString → GoString → GoMap GoString (Handlers (World A) (Node F)) → World A → World A
  disconnect_each sid reason [] w = w
  disconnect_each sid reason ((path, ns) ∷ rest) w =
      disconnect_each sid reason rest
        (if has_socket w ns.path sid then handle_disconnect ns sid reason w else w)

  unfoldable pub disconnect_all : GoString → GoString → World A → World A
  unfolding disconnect_each
  disconnect_all sid reason w = disconnect_each sid reason c.namespaces w
