-- ===== src/Sio/Connect.antt =====
-- server/internal/sio/handler.go: the connect handler and the heartbeat. The auth payload and the
-- heartbeat's are parsed by a parameter: none for a missing or empty token, or for no timestamp. An
-- error's text is given without what it wraps.
pub mod Restored
mod Examples
use hwarr.Base.{
  ℕ, GoString, codes, List, [], ◌∷◌, Option, none, some, Result, ok, err, length, if◌then◌else◌,
}
use hwarr.Base.Decimal.{pos}
use hwarr.Auth.Token.{TokenService, TokenError, validate}
use hwarr.Socketio.Namespace.{World}
use hwarr.Socketio.Packet.Binary.{Node, null, int, float, text, obj, field, end}
use hwarr.Socketio.Server.{Config}
use hwarr.Socketio.Server.Broadcast.{send_to_socket, broadcast_to_namespace}
use hwarr.Sio.ConnectionManager.{
  Manager, ConnectionInfo, add, find, active_count, get_previous_session, room_names, set_rooms,
  record_heartbeat, heartbeat_interval_sec,
}
use hwarr.Sio.Viewport.{main_namespace, enter_each}
use hwarr.Sio.Chat.{count_payload}

abbrev pub rooms_of_session : Option ConnectionInfo → List GoString
rooms_of_session none = []
rooms_of_session (some info) = room_names info

-- The rooms of the user's previous session; an empty user id has none.
unfoldable pub previous_rooms : Manager → GoString → List GoString
unfolding get_previous_session
previous_rooms m [] = []
previous_rooms m (c ∷ user) = rooms_of_session (get_previous_session m (c ∷ user))

abbrev pub reconnects : Option ConnectionInfo → ℕ
reconnects none = 0
reconnects (some info) = info.reconnect_count

module _ {A F : Type 0} (c : Config A F) where
  -- The rooms are entered and tracked where there are some.
  unfoldable pub restore : GoString → List GoString → World A × Manager → World A × Manager
  unfolding set_rooms enter_each
  restore sid [] state = state
  restore sid (room ∷ rooms) (w, m) =
      (enter_each c sid (room ∷ rooms) w, set_rooms m sid (room ∷ rooms))

  unfoldable pub connected_payload : GoString → F → Manager → List GoString → Node F
  unfolding find active_count
  connected_payload sid connected_at m rooms = obj (
      field (codes "sid") (text sid) (
        field (codes "connected_at") (float connected_at) (
          field (codes "active_connections") (int (pos (active_count m))) (
            field (codes "heartbeat_interval") (int (pos heartbeat_interval_sec)) (
              field (codes "reconnect_count") (int (pos (reconnects (find m sid))))
                (field (codes "restored_rooms") (int (pos (length rooms))) end))))))

  -- The two messages; their errors are only logged.
  unfoldable pub announce_connect : GoString → F → List GoString → World A × Manager → World A
  unfolding connected_payload send_to_socket broadcast_to_namespace active_count
  announce_connect sid connected_at rooms (w, m) =
      let told =
        (send_to_socket c main_namespace sid (codes "connected")
          (connected_payload sid connected_at m rooms ∷ []) w).0 in
      (broadcast_to_namespace c main_namespace (codes "users:count")
        (count_payload (active_count m) ∷ []) told).0

  abbrev pub admit : GoString → F → ℕ → GoString → World A × Manager → World A × Manager
  admit sid connected_at now user (w, m) =
      let rooms = previous_rooms m user in
      let restored = restore sid rooms (w, add m sid user now) in
      (announce_connect sid connected_at rooms restored, restored.1)

  abbrev pub checked :
      GoString
      → F
      → ℕ
      → Result TokenError GoString
      → World A × Manager
      → (World A × Manager) × Option GoString
  checked sid connected_at now (err e) state = (state, some (codes "invalid token"))
  checked sid connected_at now (ok user) state = (admit sid connected_at now user state, none)

  -- handleConnect: the state, and the error that rejects the client. `now` is in milliseconds, and
  -- `clock` in seconds.
  unfoldable pub handle_connect :
      TokenService
      → GoString
      → F
      → ℕ
      → ℕ
      → Option GoString
      → World A × Manager
      → (World A × Manager) × Option GoString
  unfolding validate previous_rooms restore announce_connect add
  handle_connect ts sid connected_at now clock none state =
      (state, some (codes "authentication required"))
  handle_connect ts sid connected_at now clock (some token) state =
      checked sid connected_at now (validate ts token clock) state

module _ {F : Type 0} where
  abbrev pub client_ts : Option F → Node F
  client_ts none = null
  client_ts (some ts) = float ts

  -- handleHeartbeat
  unfoldable pub handle_heartbeat : GoString → ℕ → F → Option F → Manager → Manager × Node F
  unfolding record_heartbeat
  handle_heartbeat sid now server_ts ts m =
      let recorded = record_heartbeat m sid now in
      (
        recorded.0,
        if recorded.1
            then obj (
                field (codes "status") (text (codes "ok")) (
                  field (codes "server_ts") (float server_ts)
                    (field (codes "client_ts") (client_ts ts) end)))
            else obj (field (codes "error") (text (codes "unknown_sid")) end),
      )
