-- ===== src/Engineio/Session/Examples.antt =====
-- A short life of a session, on which the theorems about session.go are applied.
use hwarr.Base.{
  ◌+◌, ◌-◌, ◌<◌, ◌≤◌, codes, [], ◌∷◌, ◌++◌, true, is_some, length, if◌then◌else◌, ◌≡◌, refl, arith,
  ◌⊎◌,
}
use hwarr.Engineio.Packet.{Packet, packet_message}
use hwarr.Engineio.Session.{
  removes_session, new_session, send, drain_start, set_on_close, close, signal_send, receive_signal,
}
use hwarr.Engineio.Session.Line.{
  Line, Reach, fresh, here, later, sends, polls, closes, sets_on_close, after_poll, accept,
}
use hwarr.Engineio.Session.Delivery.{without_noops, delivered_in_order}
use hwarr.Engineio.Session.Polls.{no_lost_wakeup}
use hwarr.Engineio.Session.Closing.{closings, closed_once, closed_for_good}

abbrev start : Line
start = fresh (codes "s1") 25 20 0

abbrev greeting : Packet
greeting = record { type = packet_message; payload = codes "hi" }

abbrev greet : Line → Line
greet l = record l {
  session = send l.session (codes "hi");
  accepted = l.accepted ++ accept l.session (greeting ∷ []);
}

abbrev poll : Line → Line
poll l = after_poll l (drain_start l.session 1)

-- A poll that finds nothing waits, and a message is sent.
abbrev greeted : Line
greeted = greet (poll start)

greeted-reached : Reach start greeted
greeted-reached = later (later here (polls 1)) (sends (codes "hi"))

greeting_waits : 0 < length greeted.session.send_buffer
unfolding new_session drain_start send signal_send
greeting_waits = omega arith

delivered_in_order_example :
    without_noops (poll greeted).accepted
    ≡ without_noops (poll greeted).delivered ++ without_noops (poll greeted).session.send_buffer
delivered_in_order_example =
    delivered_in_order (codes "s1") 25 20 0 {l = poll greeted} (later greeted-reached (polls 1))

greeting_is_delivered : (poll greeted).delivered ≡ greeting ∷ []
unfolding new_session drain_start send signal_send
greeting_is_delivered = refl

no_lost_wakeup_example :
    (0 < greeted.woken + greeted.flushing)
    ⊎ ((if is_some greeted.session.ws_conn
          then greeted.session.ws_signal
          else greeted.session.recv_signal)
        ≡ true)
no_lost_wakeup_example =
    no_lost_wakeup (codes "s1") 25 20 0 {l = greeted} greeted-reached greeting_waits

-- The waiting poll receives the signal of the message.
abbrev awake : Line
awake = record greeted {
  session = receive_signal greeted.session;
  waiting = greeted.waiting - 1;
  woken = greeted.woken + 1;
}

abbrev closed_line : Line
closed_line =
    let watched = record start { session = set_on_close start.session removes_session } in
    record watched { session = close watched.session (codes "bye") }

closed-reached : Reach start closed_line
closed-reached = later (later here (sets_on_close removes_session)) (closes (codes "bye"))

is_closed_line : closed_line.session.closed ≡ true
unfolding new_session set_on_close close
is_closed_line = refl

closed_once_example :
    closings closed_line.session.calls ≤ (if closed_line.session.closed then 1 else 0)
closed_once_example = closed_once (codes "s1") 25 20 0 {l = closed_line} closed-reached

closed_for_good_example :
    ((greet closed_line).session.closed ≡ true)
    × ((greet closed_line).accepted ≡ closed_line.accepted)
    × (length (greet closed_line).session.send_buffer ≤ length closed_line.session.send_buffer)
closed_for_good_example =
    closed_for_good {l = closed_line} {m = greet closed_line} (later here (sends (codes "hi")))
      is_closed_line
