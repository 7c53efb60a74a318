-- ===== src/Engineio/Server/WebSocket.antt =====
-- server/pkg/engineio/websocket.go. What the socket reads is an argument: a frame, or none for an
-- error. What is written is a result; whether a write succeeds is an argument too. A WebSocket
-- connection is a number. The request's upgrade is the library's.
pub mod Upgrade
pub mod Loops
use hwarr.Base.{
  ℕ, GoString, codes, List, [], ◌∷◌, Bool, true, false, ◌&&◌, Option, none, some, Result, ok, err,
  if◌then◌else◌, ◌==◌, str_eq, nat_eq,
}
use hwarr.Engineio.Packet.{
  Packet, PacketError, decode_packet, packet_close, packet_ping, packet_pong, packet_upgrade,
}
use hwarr.Engineio.Session.{
  Session, websocket, removes_session, new_session, set_on_close, start_upgrade, cancel_upgrade,
  upgrade_to_web_socket, bind_web_socket, close, is_closed, handle_packet,
}
use hwarr.Engineio.Session.Line.{ws_drain}
use hwarr.Engineio.Server.{
  Server, OpenPacketData, connected, add_session, open_data, store, is_origin_allowed,
}
use hwarr.Engineio.Server.Http.{Request, find_session}

-- What is written to the socket: a packet, the OPEN packet, or the text of an error.
pub data Frame : Type 0 where
  packet_frame : Packet → Frame
  open_frame : OpenPacketData → Frame
  error_frame : GoString → Frame

-- The start of handleWebSocket: a handshake, an upgrade of a session, or the end.
pub data Opening : Type 0 where
  rejected : Opening
  handshakes : Opening
  upgrades : ℕ → Session → Opening
  ends : Frame → Opening

-- CheckOrigin of newWSUpgrader
unfoldable pub check_origin : Server → Request → Bool
check_origin srv r = is_origin_allowed srv.config r.origin

abbrev pub open_found : Option (ℕ × Session) → Opening
open_found none = ends (error_frame (codes "Session ID unknown"))
open_found (some (p, s)) =
    if is_closed s then ends (error_frame (codes "Session closed")) else upgrades p s

unfoldable pub handle_web_socket : Server → Request → Opening
unfolding check_origin find_session is_closed
handle_web_socket srv r =
    if check_origin srv r
    then (if r.sid == [] then handshakes else open_found (find_session srv r.sid))
    else rejected

-- handleWSHandshake: the server, with the session's pointer where its loops start. The session
-- stays registered where the OPEN packet cannot be written.
unfoldable pub handle_ws_handshake : Server → GoString → ℕ → ℕ → Bool → Server × Frame × Option ℕ
unfolding new_session set_on_close add_session open_data bind_web_socket store
handle_ws_handshake srv id now wsc written =
    let fresh = new_session id srv.config.ping_interval srv.config.ping_timeout now in
    let s = set_on_close (record fresh { transport = websocket }) removes_session in
    let registered = add_session srv id s in
    let frame = open_frame (open_data srv.config id []) in
    if written
    then (
      store registered srv.next (bind_web_socket (connected srv.on_connect s) wsc),
      frame,
      some srv.next,
    )
    else (registered, frame, none)

abbrev pub probe : GoString
probe = codes "probe"

abbrev pub pong_probe : Packet
pong_probe = record { type = packet_pong; payload = probe }

-- A frame that is read and decoded, if it passes the test.
abbrev pub decoded : Result PacketError Packet → (Packet → Bool) → Bool
decoded (err e) test = false
decoded (ok p) test = test p

unfoldable pub reads : Option GoString → (Packet → Bool) → Bool
unfolding decode_packet
reads none test = false
reads (some message) test = decoded (decode_packet message) test

abbrev pub is_probe : Packet → Bool
is_probe p = p.type == packet_ping && p.payload == probe

abbrev pub is_upgrade : Packet → Bool
is_upgrade p = p.type == packet_upgrade

-- handleWSUpgrade up to its second read, where the probe is answered.
unfoldable pub answer_probe : Session → Option GoString → Bool → Session × Option Packet
unfolding reads start_upgrade cancel_upgrade
answer_probe s message written =
    if reads message is_probe
    then (if written
        then (start_upgrade s, some pong_probe)
        else (cancel_upgrade (start_upgrade s), none))
    else (s, none)

-- handleWSUpgrade behind its second read; whether the loops start.
unfoldable pub finish_upgrade : Session → Option GoString → ℕ → Session × Bool
unfolding reads upgrade_to_web_socket cancel_upgrade
finish_upgrade s message wsc =
    if reads message is_upgrade
    then (upgrade_to_web_socket s wsc, true)
    else (cancel_upgrade s, false)

-- wsReadLoop on the messages that the socket reads, each at its time, until it reads an error. What
-- a close handler does to the server is `update` of Server.
abbrev pub read_end : Session → Session
read_end s = close s (codes "transport close")

unfoldable pub ws_read_loop : Session → List (GoString × ℕ) → Session
unfolding close decode_packet handle_packet
ws_read_loop s [] = read_end s
ws_read_loop s ((message, now) ∷ rest) = elim (decode_packet message) [
  | err e ↦ ws_read_loop s rest
  | ok p ↦
      let after = handle_packet s p now in
      let more = ws_read_loop after rest in if p.type == packet_close then read_end after else more
]

-- What the select of wsWriteLoop can receive.
pub data Wake : Type 0 where
  session_closed : Wake
  ping_due : Wake
  packets_due : Wake

-- Packets that are written, until a write fails; `budget` says which writes succeed.
unfoldable pub write_each : Session → List Packet → List Bool → Session × List Frame × Bool
unfolding close
write_each s [] budget = (s, [], true)
write_each s (p ∷ ps) [] = (close s (codes "write error"), [], false)
write_each s (p ∷ ps) (false ∷ budget) = (close s (codes "write error"), [], false)
write_each s (p ∷ ps) (true ∷ budget) =
    let rest = write_each s ps budget in (rest.0, packet_frame p ∷ rest.1, rest.2)

abbrev pub ping_frame : Frame
ping_frame = packet_frame (record { type = packet_ping; payload = [] })

-- The tick of the ping ticker
unfoldable pub ping_round : Session → List Bool → Session × List Frame × Bool
unfolding close
ping_round s (true ∷ budget) = (s, ping_frame ∷ [], true)
ping_round s _ = (close s (codes "ping write error"), [], false)

-- One round of wsWriteLoop: the session, the frames written, and whether the loop goes on.
unfoldable pub ws_write_round : Session → Wake → List Bool → Session × List Frame × Bool
unfolding close ws_drain write_each ping_round
ws_write_round s session_closed budget =
    (s, packet_frame (record { type = packet_close; payload = [] }) ∷ [], false)
ws_write_round s ping_due budget = ping_round s budget
ws_write_round s packets_due budget = write_each (ws_drain s).0 (ws_drain s).1 budget
