-- ===== src/Engineio/Server/Http/Answers.antt =====
-- What HandlePacket of server/pkg/engineio/session.go makes an open session queue, with the callback
-- for messages that sends to the same session.
use hwarr.Base.{
  ℕ, suc, GoString, List, [], ◌∷◌, ◌++◌, false, some, if◌then◌else◌, ◌==◌, ◌≡◌, ◌∙◌, sym, ap, refl,
  arith, length, str_eq, nat_eq, append_assoc, append-nil, length-append,
}
use hwarr.Engineio.Packet.{Packet, packet_message, packet_close}
use hwarr.Engineio.Session.{
  Session, SessionCall, MessageHandler, message_call, handle_start, handle_packet, send_packet,
  signal_send, send, send_each, replies,
}
use hwarr.Engineio.Session.Line.{answer_to}

abbrev pub messages : List Packet → List SessionCall
messages [] = []
messages (p ∷ ps) =
    let rest = messages ps in
    if p.type == packet_message then message_call p.payload ∷ rest else rest

abbrev pub message_packets : List GoString → List Packet
message_packets [] = []
message_packets (payload ∷ rest) =
    record { type = packet_message; payload = payload } ∷ message_packets rest

-- What a packet makes a session queue, when `n` calls of callbacks were made before.
abbrev pub answers_to : MessageHandler → ℕ → Packet → List Packet
answers_to handler n p =
    if p.type == packet_message then message_packets (handler n p.payload) else answer_to p

abbrev pub calls_after : ℕ → Packet → ℕ
calls_after n p = if p.type == packet_message then suc n else n

abbrev pub all_answers : MessageHandler → ℕ → List Packet → List Packet
all_answers handler n [] = []
all_answers handler n (p ∷ ps) = answers_to handler n p ++ all_answers handler (calls_after n p) ps

abbrev pub IsNoClose : Packet → Type 0
IsNoClose p = (p.type == packet_close) ≡ false

-- The session has had the packets: its callback was called, and what answers them is queued.
abbrev pub HasHandled : MessageHandler → Session → List Packet → Session → Type 0
HasHandled handler s ps after =
    (after.calls ≡ s.calls ++ messages ps)
    × (after.send_buffer ≡ s.send_buffer ++ all_answers handler (length s.calls) ps)
    × (after.closed ≡ false)
    × (after.on_message ≡ some handler)

-- What sends on an open session leave.
abbrev HasSentAll : Session → List GoString → Session → Type 0
HasSentAll s payloads after =
    (after.calls ≡ s.calls)
    × (after.send_buffer ≡ s.send_buffer ++ message_packets payloads)
    × (after.closed ≡ false)
    × (after.on_message ≡ s.on_message)

send-HasSentAll :
    (s : Session) (payload : GoString)
    → s.closed ≡ false
    → HasSentAll s (payload ∷ []) (send s payload)
unfolding send signal_send
send-HasSentAll s payload c = ground (arith, c)

send_each-HasSentAll :
    (s : Session) (payloads : List GoString)
    → s.closed ≡ false
    → HasSentAll s payloads (send_each s payloads)
unfolding send_each
send_each-HasSentAll s [] c = (refl, sym (append-nil s.send_buffer), c, refl)
send_each-HasSentAll s (payload ∷ rest) c =
    let one = send-HasSentAll s payload c in
    let all = send_each-HasSentAll (send s payload) rest one.2 in
    (
      all.0 ∙ one.0,
      all.1
          ∙ ap (λ b. b ++ message_packets rest) one.1
          ∙ append_assoc s.send_buffer (message_packets (payload ∷ [])) (message_packets rest),
      all.2,
      all.3 ∙ one.3,
    )

handle_start-open :
    (handler : MessageHandler) (s : Session) (p : Packet) (now : ℕ)
    → s.closed ≡ false
    → s.on_message ≡ some handler
    → IsNoClose p
    → let after = handle_start s p now in
      (after.calls ≡ s.calls ++ messages (p ∷ []))
      × (after.send_buffer ≡ s.send_buffer ++ answer_to p)
      × (after.closed ≡ false)
      × (after.on_message ≡ some handler)
unfolding handle_start send_packet signal_send
handle_start-open handler s p now c m n =
    ground (arith, append-nil s.calls, append-nil s.send_buffer)

-- A packet is answered by a pong or by the callback, not by both.
answers-split :
    (handler : MessageHandler) (s : Session) (p : Packet)
    → s.on_message ≡ some handler
    → answer_to p ++ message_packets (replies s.on_message (length s.calls) p)
      ≡ answers_to handler (length s.calls) p
answers-split handler s p m = rw m (ground (arith, append-nil (answer_to p)))

pub handle_packet-open :
    (handler : MessageHandler) (s : Session) (p : Packet) (now : ℕ)
    → s.closed ≡ false
    → s.on_message ≡ some handler
    → IsNoClose p
    → HasHandled handler s (p ∷ []) (handle_packet s p now)
unfolding handle_packet
handle_packet-open handler s p now c m n =
    let texts = replies s.on_message (length s.calls) p in
    let begun = handle_start-open handler s p now c m n in
    let all = send_each-HasSentAll (handle_start s p now) texts begun.2 in
    (
      all.0 ∙ begun.0,
      all.1
          ∙ ap (λ b. b ++ message_packets texts) begun.1
          ∙ append_assoc s.send_buffer (answer_to p) (message_packets texts)
          ∙ ap (λ b. s.send_buffer ++ b)
              (answers-split handler s p m
                ∙ sym (append-nil (answers_to handler (length s.calls) p))),
      all.2,
      all.3 ∙ begun.3,
    )

pub calls-counted :
    (s : Session) (p : Packet)
    → length (s.calls ++ messages (p ∷ [])) ≡ calls_after (length s.calls) p
calls-counted s p = ground (arith, length-append s.calls (messages (p ∷ [])))

pub messages-cons :
    (p : Packet) (ps : List Packet) → messages (p ∷ []) ++ messages ps ≡ messages (p ∷ ps)
messages-cons p ps = ground arith
