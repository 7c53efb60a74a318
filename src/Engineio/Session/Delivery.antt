-- ===== src/Engineio/Session/Delivery.antt =====
-- What the goroutines of a `Line` hand over of what its session has taken.
use hwarr.Base.{
  ℕ, GoString, List, [], ◌∷◌, ◌++◌, Bool, true, false, append_assoc, append-nil, if◌then◌else◌,
  ◌==◌, nat_eq, ◌≡◌, refl, sym, ap, ◌∙◌, arith, ltb, length, Bool-cases, inl, inr,
}
use hwarr.Engineio.Packet.{Packet, packet_pong, packet_message, packet_noop}
use hwarr.Engineio.Session.{
  Session, new_session, set_on_message, set_on_close, send, send_packet, bind_web_socket,
  start_upgrade, upgrade_to_web_socket, cancel_upgrade, drain_start, receive_signal, drain_woken,
  handle_start, close, signal_send, with_noop, noop,
}
use hwarr.Engineio.Session.Line.{
  Line, Step, Reach, accept, answer_to, after_poll, ws_drain, sets_on_message, sets_on_close, sends,
  sends_packet, handles, polls, wakes, gives_up, answers, flush_wakes, flushes, starts_upgrade,
  cancels_upgrade, upgrades, binds, closes, fresh, here, later,
}

-- The packets that are not of type NOOP.
abbrev pub without_noops : List Packet → List Packet
without_noops [] = []
without_noops (p ∷ ps) =
    let rest = without_noops ps in if p.type == packet_noop then rest else p ∷ rest

without_noops-append :
    (xs ys : List Packet) → without_noops (xs ++ ys) ≡ without_noops xs ++ without_noops ys
without_noops-append [] ys = refl
without_noops-append (x ∷ xs) ys = ground (arith, without_noops-append xs ys)

without_noops-with_noop :
    (b : Bool) (ps : List Packet) → without_noops (with_noop b ps) ≡ without_noops ps
without_noops-with_noop true ps =
    without_noops-append ps (noop ∷ []) ∙ append-nil (without_noops ps)
without_noops-with_noop false ps = refl

-- Nothing is lost, nothing is doubled, and the order is kept.
abbrev IsInOrder : Line → Type 0
IsInOrder l =
    without_noops l.accepted ≡ without_noops l.delivered ++ without_noops l.session.send_buffer

grow :
    (a d b x : List Packet)
    → without_noops a ≡ without_noops d ++ without_noops b
    → without_noops (a ++ x) ≡ without_noops d ++ without_noops (b ++ x)
grow a d b x h =
    rw (without_noops-append a x, without_noops-append b x, h)
      (append_assoc (without_noops d) (without_noops b) (without_noops x))

hand_over :
    (u : Bool) (a d b : List Packet)
    → without_noops a ≡ without_noops d ++ without_noops b
    → without_noops a ≡ without_noops (d ++ with_noop u b) ++ []
hand_over u a d b h =
    rw
      (
        append-nil (without_noops (d ++ with_noop u b)),
        without_noops-append d (with_noop u b),
        without_noops-with_noop u b,
      )
      h

signal_send-buffer : (s : Session) → (signal_send s).send_buffer ≡ s.send_buffer
unfolding signal_send
signal_send-buffer s = ground arith

send_packet-buffer :
    (s : Session) (p : Packet) → (send_packet s p).send_buffer ≡ s.send_buffer ++ accept s (p ∷ [])
unfolding send_packet signal_send
send_packet-buffer s p = elim (Bool-cases s.closed) [
  | inl c ↦ rw c (sym (append-nil s.send_buffer))
  | inr c ↦ rw c (signal_send-buffer _)
]

send-send_packet :
    (s : Session) (payload : GoString)
    → send s payload ≡ send_packet s (record { type = packet_message; payload = payload })
unfolding send send_packet
send-send_packet s payload = refl

handle_start-buffer :
    (s : Session) (p : Packet) (now : ℕ)
    → (handle_start s p now).send_buffer ≡ s.send_buffer ++ accept s (answer_to p)
unfolding handle_start close
handle_start-buffer s p now = ground (
  arith,
  append-nil s.send_buffer,
  send_packet-buffer (record s { last_active = now })
      (record { type = packet_pong; payload = p.payload }),
)

drain_start-IsInOrder :
    (l : Line) (now : ℕ) → IsInOrder l → IsInOrder (after_poll l (drain_start l.session now))
unfolding drain_start
drain_start-IsInOrder l now h =
    let buffer = l.session.send_buffer in
    elim (Bool-cases (ltb 0 (length buffer))) [
      | inl some_wait ↦ rw some_wait (hand_over l.session.upgrading l.accepted l.delivered buffer h)
      | inr none_wait ↦ elim (Bool-cases l.session.upgrading) [
        | inl u ↦
            rw (none_wait, u)
              (h
                ∙ ap (λ d. d ++ without_noops buffer)
                    (sym (
                      without_noops-append l.delivered (noop ∷ [])
                      ∙ append-nil (without_noops l.delivered))))
        | inr u ↦ rw (none_wait, u) h
      ]
    ]

Step-IsInOrder : {l m : Line} → Step l m → IsInOrder l → IsInOrder m
unfolding set_on_message set_on_close bind_web_socket start_upgrade upgrade_to_web_socket
    cancel_upgrade receive_signal drain_woken ws_drain close
Step-IsInOrder {l} (sets_on_message handler) h = h
Step-IsInOrder {l} (sets_on_close handler) h = h
Step-IsInOrder {l} (sends payload) h =
    rw (send-send_packet l.session payload, send_packet-buffer l.session _)
      (grow l.accepted l.delivered l.session.send_buffer _ h)
Step-IsInOrder {l} (sends_packet p) h =
    rw (send_packet-buffer l.session p) (grow l.accepted l.delivered l.session.send_buffer _ h)
Step-IsInOrder {l} (handles p now) h =
    rw (handle_start-buffer l.session p now) (grow l.accepted l.delivered l.session.send_buffer _ h)
Step-IsInOrder {l} (polls now) h = drain_start-IsInOrder l now h
Step-IsInOrder {l} (wakes _ _) h = h
Step-IsInOrder {l} (gives_up _) h = h
Step-IsInOrder {l} (answers now _) h =
    hand_over l.session.upgrading l.accepted l.delivered l.session.send_buffer h
Step-IsInOrder {l} (flush_wakes _) h = h
Step-IsInOrder {l} (flushes _) h = hand_over false l.accepted l.delivered l.session.send_buffer h
Step-IsInOrder {l} starts_upgrade h = ground (arith, h)
Step-IsInOrder {l} cancels_upgrade h = h
Step-IsInOrder {l} (upgrades wsc) h = h
Step-IsInOrder {l} (binds wsc _) h = h
Step-IsInOrder {l} (closes reason) h = ground (arith, h)

-- From a new session on, whatever the order in which messages and packets are sent, polls and the
-- write loop take them, and the session is upgraded, cancelled, closed, or bound to a WebSocket
-- while its buffer is empty: the packets handed over to a transport and those still in the
-- buffer, one behind the other and without those of type NOOP, are the packets that were
-- accepted, each once and in their order.
pub delivered_in_order :
    (id : GoString) (ping_interval ping_timeout now : ℕ) {l : Line}
    → Reach (fresh id ping_interval ping_timeout now) l
    → without_noops l.accepted ≡ without_noops l.delivered ++ without_noops l.session.send_buffer
unfolding new_session
delivered_in_order id i t now here = refl
delivered_in_order id i t now (later r st) = Step-IsInOrder st (delivered_in_order id i t now r)
