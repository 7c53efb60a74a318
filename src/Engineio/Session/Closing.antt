-- ===== src/Engineio/Session/Closing.antt =====
-- The end of a `Line`'s session.
use hwarr.Base.{
  ℕ, ◌+◌, ◌≤◌, GoString, List, [], ◌∷◌, ◌++◌, true, append-nil, if◌then◌else◌, nat_eq, ◌≡◌, refl,
  ◌∙◌, arith, codes, length,
}
use hwarr.Engineio.Session.{
  SessionCall, message_call, close_call, close_calls, new_session, set_on_message, set_on_close,
  send, send_packet, bind_web_socket, start_upgrade, upgrade_to_web_socket, cancel_upgrade,
  drain_start, receive_signal, drain_woken, handle_start, close, signal_send,
}
use hwarr.Engineio.Session.Line.{
  Line, Step, Reach, ws_drain, sets_on_message, sets_on_close, sends, sends_packet, handles, polls,
  wakes, gives_up, answers, flush_wakes, flushes, starts_upgrade, cancels_upgrade, upgrades, binds,
  closes, fresh, here, later,
}

-- The calls of the close callback.
abbrev pub closings : List SessionCall → ℕ
closings [] = 0
closings (message_call p ∷ cs) = closings cs
closings (close_call handler id reason ∷ cs) = closings cs + 1

closings-append : (xs ys : List SessionCall) → closings (xs ++ ys) ≡ closings xs + closings ys
closings-append [] ys = omega arith
closings-append (message_call p ∷ xs) ys = closings-append xs ys
closings-append (close_call handler id reason ∷ xs) ys = omega (arith, closings-append xs ys)

abbrev IsCalledOnce : Line → Type 0
IsCalledOnce l = closings l.session.calls ≤ (if l.session.closed then 1 else 0)

Step-IsCalledOnce : {l m : Line} → Step l m → IsCalledOnce l → IsCalledOnce m
unfolding set_on_message set_on_close bind_web_socket start_upgrade upgrade_to_web_socket
    cancel_upgrade receive_signal drain_woken ws_drain close drain_start send send_packet
    signal_send handle_start
Step-IsCalledOnce {l} (sets_on_message handler) h = h
Step-IsCalledOnce {l} (sets_on_close handler) h = h
Step-IsCalledOnce {l} (sends payload) h = ground arith
Step-IsCalledOnce {l} (sends_packet p) h = ground arith
Step-IsCalledOnce {l} (handles p now) h = ground (
  arith,
  closings-append l.session.calls (message_call p.payload ∷ []),
  closings-append l.session.calls
      (close_calls l.session.on_close l.session.id (codes "client close")),
)
Step-IsCalledOnce {l} (polls now) h = ground arith
Step-IsCalledOnce {l} (wakes _ _) h = h
Step-IsCalledOnce {l} (gives_up _) h = h
Step-IsCalledOnce {l} (answers now _) h = h
Step-IsCalledOnce {l} (flush_wakes _) h = h
Step-IsCalledOnce {l} (flushes _) h = h
Step-IsCalledOnce {l} starts_upgrade h = ground arith
Step-IsCalledOnce {l} cancels_upgrade h = h
Step-IsCalledOnce {l} (upgrades wsc) h = h
Step-IsCalledOnce {l} (binds wsc e) h = h
Step-IsCalledOnce {l} (closes reason) h =
    ground
      (arith, closings-append l.session.calls (close_calls l.session.on_close l.session.id reason))

-- A closed session stays closed, accepts nothing and queues nothing.
abbrev IsFinal : Line → Line → Type 0
IsFinal l m =
    (m.session.closed ≡ true)
    × (m.accepted ≡ l.accepted)
    × (length m.session.send_buffer ≤ length l.session.send_buffer)

Step-IsFinal : {l m : Line} → Step l m → l.session.closed ≡ true → IsFinal l m
unfolding set_on_message set_on_close bind_web_socket start_upgrade upgrade_to_web_socket
    cancel_upgrade receive_signal drain_woken ws_drain close drain_start send send_packet
    signal_send handle_start
Step-IsFinal {l} (sets_on_message handler) h = ground arith
Step-IsFinal {l} (sets_on_close handler) h = ground arith
Step-IsFinal {l} (sends payload) h = ground (arith, append-nil l.accepted)
Step-IsFinal {l} (sends_packet p) h = ground (arith, append-nil l.accepted)
Step-IsFinal {l} (handles p now) h = ground (arith, append-nil l.accepted)
Step-IsFinal {l} (polls now) h = ground arith
Step-IsFinal {l} (wakes _ _) h = ground arith
Step-IsFinal {l} (gives_up _) h = ground arith
Step-IsFinal {l} (answers now _) h = ground arith
Step-IsFinal {l} (flush_wakes _) h = ground arith
Step-IsFinal {l} (flushes _) h = ground arith
Step-IsFinal {l} starts_upgrade h = ground arith
Step-IsFinal {l} cancels_upgrade h = ground arith
Step-IsFinal {l} (upgrades wsc) h = ground arith
Step-IsFinal {l} (binds wsc e) h = ground arith
Step-IsFinal {l} (closes reason) h = ground arith

-- From a new session on, whatever the interleaving in which a WebSocket is bound only with an
-- empty buffer, the close callback is called at most once, and only of a closed session.
pub closed_once :
    (id : GoString) (ping_interval ping_timeout now : ℕ) {l : Line}
    → Reach (fresh id ping_interval ping_timeout now) l
    → closings l.session.calls ≤ (if l.session.closed then 1 else 0)
unfolding new_session
closed_once id i t now here = omega arith
closed_once id i t now (later r st) = Step-IsCalledOnce st (closed_once id i t now r)

-- A session that is closed stays closed through every run of steps (a WebSocket is bound only
-- with an empty buffer), none of which makes it accept a packet or lets its buffer grow.
pub closed_for_good :
    {l m : Line}
    → Reach l m
    → l.session.closed ≡ true
    → (m.session.closed ≡ true)
      × (m.accepted ≡ l.accepted)
      × (length m.session.send_buffer ≤ length l.session.send_buffer)
closed_for_good {l} here c = (c, refl, omega arith)
closed_for_good {l} (later r st) c =
    let before = closed_for_good r c in
    let step = Step-IsFinal st before.0 in
    (step.0, step.1 ∙ before.1, omega (arith, step.2, before.2))
