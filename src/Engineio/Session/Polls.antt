-- ===== src/Engineio/Session/Polls.antt =====
-- How the transports of a `Line` learn of packets that wait, and what a poll is answered.
use hwarr.Base.{
  ℕ, ◌+◌, ◌<◌, GoString, true, if◌then◌else◌, nat_eq, ◌≡◌, arith, length, is_some, ◌⊎◌,
}
use hwarr.Engineio.Session.{
  new_session, set_on_message, set_on_close, send, send_packet, bind_web_socket, start_upgrade,
  upgrade_to_web_socket, cancel_upgrade, drain_start, receive_signal, drain_woken, handle_start,
  close, signal_send,
}
use hwarr.Engineio.Session.Line.{
  Line, Step, Reach, ws_drain, sets_on_message, sets_on_close, sends, sends_packet, handles, polls,
  wakes, gives_up, answers, flush_wakes, flushes, starts_upgrade, cancels_upgrade, upgrades, binds,
  closes, fresh, here, later,
}

-- Waiting packets have a signal for the transport, or somebody who has received it.
abbrev IsAwake : Line → Type 0
IsAwake l =
    0 < length l.session.send_buffer
    → (0 < l.woken + l.flushing)
      ⊎ ((if is_some l.session.ws_conn then l.session.ws_signal else l.session.recv_signal) ≡ true)

Step-IsAwake : {l m : Line} → Step l m → IsAwake l → IsAwake m
unfolding set_on_message set_on_close bind_web_socket start_upgrade upgrade_to_web_socket
    cancel_upgrade receive_signal drain_woken ws_drain close drain_start send send_packet
    signal_send handle_start
Step-IsAwake {l} (sets_on_message handler) h = h
Step-IsAwake {l} (sets_on_close handler) h = h
Step-IsAwake {l} (sends payload) h = ground arith
Step-IsAwake {l} (sends_packet p) h = ground arith
Step-IsAwake {l} (handles p now) h = ground arith
Step-IsAwake {l} (polls now) h = ground arith
Step-IsAwake {l} (wakes _ _) h = ground arith
Step-IsAwake {l} (gives_up _) h = h
Step-IsAwake {l} (answers now _) h = ground arith
Step-IsAwake {l} (flush_wakes _) h = ground arith
Step-IsAwake {l} (flushes _) h = ground arith
Step-IsAwake {l} starts_upgrade h = ground arith
Step-IsAwake {l} cancels_upgrade h = h
Step-IsAwake {l} (upgrades wsc) h = ground arith
Step-IsAwake {l} (binds wsc e) h = ground arith
Step-IsAwake {l} (closes reason) h = ground arith

-- From a new session on, whatever the interleaving: while packets wait in the buffer, the channel
-- of the session's transport holds a signal, or a poll or a write loop has received one and is
-- about to take them. A WebSocket is bound only with an empty buffer here, since BindWebSocket
-- drops the signal.
pub no_lost_wakeup :
    (id : GoString) (ping_interval ping_timeout now : ℕ) {l : Line}
    → Reach (fresh id ping_interval ping_timeout now) l
    → 0 < length l.session.send_buffer
    → (0 < l.woken + l.flushing)
      ⊎ ((if is_some l.session.ws_conn then l.session.ws_signal else l.session.recv_signal) ≡ true)
unfolding new_session
no_lost_wakeup id i t now here = λ h. absurd (omega (arith, h))
no_lost_wakeup id i t now (later r st) = Step-IsAwake st (no_lost_wakeup id i t now r)
