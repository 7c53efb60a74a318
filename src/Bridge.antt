-- ===== src/Bridge.antt =====
-- The bridge of server/internal/server/server.go, setupSocketServers: what connects the sessions of
-- Engine.IO to the Socket.IO server. What handlers send through SendTo while a message is
-- dispatched is kept in the world's `sent`; what the bridge sends itself goes to the session.
pub mod Answers
mod Examples
use hwarr.Base.{
  ◌*◌, GoString, codes, List, [], ◌∷◌, Bool, true, false, Option, none, some, Result, ok, err,
}
use hwarr.Socketio.Json.{JsonReader}
use hwarr.Socketio.Namespace.{World}
use hwarr.Socketio.Packet.{Packet, PacketError, encode}
use hwarr.Socketio.Server.{
  Config, DispatchResult, dispatch_raw_full, build_ack_packet, disconnect_all,
}
use hwarr.Engineio.Session.{
  Session, MessageHandler, disconnects_all, send, set_on_message, set_on_close,
}
use hwarr.Engineio.Server.{
  Server, ServerConfig, second, new_server, set_on_connect, get_session, session_at, store,
}

unfoldable pub socket_config : List GoString → ServerConfig
socket_config origins = record {
  ping_interval = 10 * second;
  ping_timeout = 5 * second;
  max_payload = 1000000;
  upgrades = some (codes "websocket" ∷ []);
  allowed_origins = origins;
}

-- The callback of OnConnect: a session gets both callbacks, and the close handler that it had is
-- replaced. `handler` tells what `on_message` below sends to the session at each of its calls.
unfoldable pub bridged : MessageHandler → Session → Session
unfolding set_on_message set_on_close
bridged handler s = set_on_close (set_on_message s handler) disconnects_all

unfoldable pub socket_server : List GoString → (GoString → MessageHandler) → Server
unfolding socket_config new_server set_on_connect bridged
socket_server origins handlers =
    set_on_connect (new_server (socket_config origins)) (λ s. bridged (handlers s.id) s)

-- SendTo: it fails for a session that is not registered, and not for one that is closed.
unfoldable pub send_to : Server → GoString → GoString → Server × Bool
unfolding get_session session_at store send
send_to srv sid frame = elim (get_session srv sid) [
  | none ↦ (srv, false)
  | some p ↦ elim (session_at srv p) [
    | none ↦ (srv, false)
    | some s ↦ (store srv p (send s frame), true)
  ]
]

-- What is sent for a packet of the result, and for an acknowledgement that could be built.
unfoldable pub send_response : Session → Option Packet → Session
unfolding send encode
send_response s none = s
send_response s (some p) = send s (encode p)

unfoldable pub send_ack : Session → Result PacketError (Option Packet) → Session
unfolding send_response
send_ack s (err e) = s
send_ack s (ok p) = send_response s p

module _ {A F : Type 0} (c : Config A F) where
  unfoldable pub answer_ack : Session → Option Packet → DispatchResult F → Session
  unfolding send_ack build_ack_packet
  answer_ack s none r = s
  answer_ack s (some p) r = send_ack s (build_ack_packet c p r.acknowledgement)

  unfoldable pub answer : Session → Option (DispatchResult F) → Option Packet → Session
  unfolding answer_ack send_response
  answer s none p = s
  answer s (some r) p = answer_ack (send_response s r.response) p r

  -- The callback of SetOnMessage
  unfoldable pub on_message : JsonReader → GoString → World A × Session → World A × Session
  unfolding dispatch_raw_full answer
  on_message reader text (w, s) =
      let dispatched = dispatch_raw_full c reader s.id text w in
      (dispatched.0.0, answer s dispatched.0.1 dispatched.1)

  -- The callback of SetOnClose
  unfoldable pub on_close : GoString → GoString → World A → World A
  unfolding disconnect_all
  on_close sid reason w = disconnect_all c sid reason w
