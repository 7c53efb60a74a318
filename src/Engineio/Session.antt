-- ===== src/Engineio/Session.antt =====
-- server/pkg/engineio/session.go. A channel of capacity 1 that only signals is a Bool: whether a
-- signal waits in it. `closedChan` and `upgradeChan` are closed once and read as the flags they
-- are. A call of a callback is an entry of `calls`. Of the callback for messages it is kept what it
-- sends to its own session at each call; what else callbacks do is further operations. `pollReady`
-- is never used. Drain waits in a `select`, so it is cut where it gives up the lock.
pub mod Line
pub mod Delivery
pub mod Closing
pub mod Polls
pub mod Service
mod Examples
use hwarr.Base.{
  ℕ, GoString, codes, List, [], ◌∷◌, ◌++◌, Bool, true, false, Option, none, some, is_some, ltb,
  length, if◌then◌else◌, ◌==◌, nat_eq,
}
use hwarr.Engineio.Packet.{
  Packet, packet_message, packet_ping, packet_pong, packet_close, packet_noop,
}

pub data Transport : Type 0 where
  polling : Transport
  websocket : Transport

-- The functions that are given to SetOnClose: the one of engineio/server.go and
-- engineio/websocket.go, and the one of internal/server/server.go.
pub data CloseHandler : Type 0 where
  removes_session : CloseHandler
  disconnects_all : CloseHandler

pub data SessionCall : Type 0 where
  message_call : GoString → SessionCall
  close_call : CloseHandler → GoString → GoString → SessionCall

-- What the callback for messages sends to its own session: by the number of calls made before, so
-- that it may keep a state, and by the data.
abbrev pub MessageHandler : Type 0
MessageHandler = ℕ → GoString → List GoString

abbrev pub close_calls : Option CloseHandler → GoString → GoString → List SessionCall
close_calls none id reason = []
close_calls (some handler) id reason = close_call handler id reason ∷ []

pub record Session : Type 0 where
  pub id : GoString
  pub transport : Transport
  pub remote_addr : GoString
  pub ping_interval : ℕ
  pub ping_timeout : ℕ
  pub send_buffer : List Packet
  pub recv_signal : Bool
  pub closed : Bool
  pub last_active : ℕ
  pub on_message : Option MessageHandler
  pub on_close : Option CloseHandler
  pub ws_conn : Option ℕ
  pub ws_signal : Bool
  pub upgrading : Bool
  pub upgrade_done : Bool
  pub calls : List SessionCall

-- The id is drawn at random, and the clock is read.
unfoldable pub new_session : GoString → ℕ → ℕ → ℕ → Session
new_session id ping_interval ping_timeout now = record {
  id = id;
  transport = polling;
  remote_addr = [];
  ping_interval = ping_interval;
  ping_timeout = ping_timeout;
  send_buffer = [];
  recv_signal = false;
  closed = false;
  last_active = now;
  on_message = none;
  on_close = none;
  ws_conn = none;
  ws_signal = false;
  upgrading = false;
  upgrade_done = false;
  calls = [];
}

unfoldable pub set_on_message : Session → MessageHandler → Session
set_on_message s handler = record s { on_message = some handler }

unfoldable pub set_on_close : Session → CloseHandler → Session
set_on_close s handler = record s { on_close = some handler }

unfoldable pub signal_send : Session → Session
signal_send s =
    if is_some s.ws_conn then record s { ws_signal = true } else record s { recv_signal = true }

unfoldable pub send_packet : Session → Packet → Session
unfolding signal_send
send_packet s p =
    if s.closed then s else signal_send (record s { send_buffer = s.send_buffer ++ p ∷ [] })

unfoldable pub send : Session → GoString → Session
unfolding signal_send
send s payload =
    if s.closed
    then s
    else signal_send (record s {
      send_buffer = s.send_buffer ++ record { type = packet_message; payload = payload } ∷ [];
    })

unfoldable pub bind_web_socket : Session → ℕ → Session
bind_web_socket s wsc = record s { ws_conn = some wsc; ws_signal = false; transport = websocket }

unfoldable pub start_upgrade : Session → Session
start_upgrade s = if s.upgrading then s else record s { upgrading = true; recv_signal = true }

unfoldable pub is_upgrading : Session → Bool
is_upgrading s = s.upgrading

unfoldable pub upgrade_to_web_socket : Session → ℕ → Session
upgrade_to_web_socket s wsc = record s {
  ws_conn = some wsc;
  ws_signal = ltb 0 (length s.send_buffer);
  transport = websocket;
  upgrading = false;
  upgrade_done = true;
  recv_signal = true;
}

unfoldable pub cancel_upgrade : Session → Session
cancel_upgrade s = record s { upgrading = false }

abbrev pub noop : Packet
noop = record { type = packet_noop; payload = [] }

-- The packets of an answer to a poll, with the NOOP that an upgrade in progress adds.
abbrev pub with_noop : Bool → List Packet → List Packet
with_noop true packets = packets ++ noop ∷ []
with_noop false packets = packets

-- Under the lock: the buffer is taken and the clock is read.
abbrev pub take_buffer : Session → ℕ → Session
take_buffer s now = record s { send_buffer = []; last_active = now }

-- Drain up to its `select`: an answer, or none where it has to wait.
unfoldable pub drain_start : Session → ℕ → Session × Option (List Packet)
drain_start s now =
    if ltb 0 (length s.send_buffer)
    then (take_buffer s now, some (with_noop s.upgrading s.send_buffer))
    else (s, if s.upgrading then some (noop ∷ []) else none)

-- The waiting Drain receives from `recvChan`; the lock is taken after that.
unfoldable pub receive_signal : Session → Session
receive_signal s = record s { recv_signal = false }

-- Drain behind the receive.
unfoldable pub drain_woken : Session → ℕ → Session × List Packet
drain_woken s now = (take_buffer s now, with_noop s.upgrading s.send_buffer)

unfoldable pub is_closed : Session → Bool
is_closed s = s.closed

unfoldable pub close : Session → GoString → Session
close s reason =
    if s.closed
    then s
    else record s { closed = true; calls = s.calls ++ close_calls s.on_close s.id reason }

-- HandlePacket up to what the callback for messages sends; where other goroutines work on the
-- session, these sends are steps of their own.
unfoldable pub handle_start : Session → Packet → ℕ → Session
unfolding send_packet close
handle_start s p now =
    let active = record s { last_active = now } in
    if p.type == packet_ping
    then send_packet active (record { type = packet_pong; payload = p.payload })
    else if p.type == packet_message
    then (if is_some s.on_message
        then record active { calls = s.calls ++ message_call p.payload ∷ [] }
        else active)
    else if p.type == packet_close
    then close active (codes "client close")
    else active

unfoldable pub send_each : Session → List GoString → Session
unfolding send
send_each s [] = s
send_each s (payload ∷ rest) = send_each (send s payload) rest

abbrev pub replies : Option MessageHandler → ℕ → Packet → List GoString
replies none n p = []
replies (some handler) n p = if p.type == packet_message then handler n p.payload else []

-- HandlePacket with what the callback sends, where nobody else works on the session meanwhile.
unfoldable pub handle_packet : Session → Packet → ℕ → Session
unfolding handle_start send_each
handle_packet s p now = send_each (handle_start s p now) (replies s.on_message (length s.calls) p)

unfoldable pub last_active_at : Session → ℕ
last_active_at s = s.last_active
