-- ===== src/Engineio/Server/Pings.antt =====
-- A tick of pingLoop of server/pkg/engineio/server.go.
pub mod Loop
pub mod Verdicts
use hwarr.Base.{
  ℕ, GoString, codes, [], Bool, false, not, ◌||◌, none, some, if◌then◌else◌, ◌==◌, str_eq, nat_eq,
  ◌≡◌, refl, arith, nat_beq_iff, str_iff,
}
use hwarr.GoMap.Laws.{get-assign, get-delete}
use hwarr.Engineio.Packet.{Packet, packet_ping}
use hwarr.Engineio.Session.{Session, close, send_packet, signal_send, is_closed}
use hwarr.Engineio.Server.{
  Server, ServerConfig, get_session, remove_session, session_at, store, update, close_session,
  ping_session, is_overdue,
}

abbrev pub ping : Packet
ping = record { type = packet_ping; payload = [] }

-- What the tick does with a session, and whether it stays registered.
abbrev pub ticked : Session → ServerConfig → ℕ → Session
ticked s config now =
    if s.closed
    then s
    else if is_overdue s config now
    then close s (codes "ping timeout")
    else send_packet s ping

abbrev pub stays : Session → ServerConfig → ℕ → Bool
stays s config now = not (s.closed || is_overdue s config now)

-- The session object under a key is there and carries it as its id.
abbrev pub IsFiled : Server → GoString × ℕ → Type 0
IsFiled srv entry = (s : Session) × (session_at srv entry.1 ≡ some s) × (s.id ≡ entry.0)

close-id : (s : Session) (reason : GoString) → (close s reason).id ≡ s.id
unfolding close
close-id s reason = ground arith

send_packet-id : (s : Session) (p : Packet) → (send_packet s p).id ≡ s.id
unfolding send_packet signal_send
send_packet-id s p = ground arith

pub ticked-id : (s : Session) (config : ServerConfig) (now : ℕ) → (ticked s config now).id ≡ s.id
ticked-id s config now = ground (arith, close-id s (codes "ping timeout"), send_packet-id s ping)

update-objects :
    (srv : Server) (p q : ℕ) (before after : Session)
    → session_at (update srv p before after) q ≡ (if p == q then some after else session_at srv q)
unfolding update store session_at remove_session
update-objects srv p q before after = ground (arith, get-assign srv.objects p q after)

update-sessions :
    (srv : Server) (p : ℕ) (before after : Session) (sid : GoString)
    → (before.id == sid) ≡ false
    → get_session (update srv p before after) sid ≡ get_session srv sid
unfolding update store get_session remove_session
update-sessions srv p before after sid n = ground (arith, get-delete srv.sessions before.id sid)

update-config :
    (srv : Server) (p : ℕ) (before after : Session)
    → (update srv p before after).config ≡ srv.config
unfolding update store remove_session
update-config srv p before after = ground arith

remove_session-objects :
    (srv : Server) (sid : GoString) (q : ℕ)
    → session_at (remove_session srv sid) q ≡ session_at srv q
unfolding session_at remove_session
remove_session-objects srv sid q = refl

remove_session-sessions :
    (srv : Server) (sid t : GoString)
    → get_session (remove_session srv sid) t ≡ (if sid == t then none else get_session srv t)
unfolding get_session remove_session
remove_session-sessions srv sid t = get-delete srv.sessions sid t

store-objects :
    (srv : Server) (p q : ℕ) (s : Session)
    → session_at (store srv p s) q ≡ (if p == q then some s else session_at srv q)
unfolding session_at store
store-objects srv p q s = get-assign srv.objects p q s

store-sessions :
    (srv : Server) (p : ℕ) (s : Session) (t : GoString)
    → get_session (store srv p s) t ≡ get_session srv t
unfolding get_session store
store-sessions srv p s t = refl

-- The step at a session whose object is there.
module _ (srv : Server) (now : ℕ) (sid : GoString) (p : ℕ) (s : Session)
    (f : session_at srv p ≡ some s) where
  close_session-update :
      (reason : GoString) → close_session srv p reason ≡ update srv p s (close s reason)
  unfolding close_session
  close_session-update reason = rw (f, close_session) refl

  pub ping_session-objects :
      (q : ℕ)
      → session_at (ping_session srv now sid p s) q
        ≡ (if p == q then some (ticked s srv.config now) else session_at srv q)
  unfolding ping_session is_closed
  ping_session-objects q =
      let dead = close s (codes "ping timeout") in
      ground (
        arith,
        f,
        nat_beq_iff p q,
        remove_session-objects srv sid q,
        remove_session-objects (close_session srv p (codes "ping timeout")) sid q,
        close_session-update (codes "ping timeout"),
        update-objects srv p q s dead,
        store-objects srv p q (send_packet s ping),
      )

  pub ping_session-sessions :
      (t : GoString)
      → s.id ≡ sid
      → get_session (ping_session srv now sid p s) t ≡ (
          if sid == t
          then (if stays s srv.config now then get_session srv sid else none)
          else get_session srv t)
  unfolding ping_session is_closed
  ping_session-sessions t e =
      let dead = close s (codes "ping timeout") in
      ground (
        arith,
        e,
        str_iff sid t,
        remove_session-sessions srv sid t,
        remove_session-sessions (close_session srv p (codes "ping timeout")) sid t,
        close_session-update (codes "ping timeout"),
        update-sessions srv p s dead t,
        store-sessions srv p (send_packet s ping) t,
      )

  pub ping_session-config : (ping_session srv now sid p s).config ≡ srv.config
  unfolding ping_session is_closed store remove_session
  ping_session-config = ground (
    arith,
    close_session-update (codes "ping timeout"),
    update-config srv p s (close s (codes "ping timeout")),
  )
