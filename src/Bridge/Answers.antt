-- ===== src/Bridge/Answers.antt =====
-- What the bridge of server/internal/server/server.go sends back for a message.
use hwarr.Base.{
  ℕ, GoString, List, [], ◌∷◌, ◌++◌, true, false, Option, none, some, Result, ok, err, ◌≡◌, ◌⊎◌,
  refl, arith, inl, inr, Option-cases, Result-cases,
}
use hwarr.Base.Decimal.{ℤ, pos, negsuc}
use hwarr.Socketio.Json.{JsonReader}
use hwarr.Socketio.Namespace.{World}
use hwarr.Socketio.Packet.{Packet, PacketError, packet_ack, encode, decode}
use hwarr.Socketio.Packet.Binary.{Node, arr}
use hwarr.Socketio.Packet.Build.{or_root, is_event, new_ack_packet, items_of}
use hwarr.Socketio.Server.{
  Config, DispatchResult, dispatch_packet_full, dispatch_raw_full, build_ack_packet, packet_failure,
}
use hwarr.Engineio.Packet.{packet_message}
use hwarr.Engineio.Session.{Session, send, signal_send}
use hwarr.Bridge.{send_response, send_ack, answer_ack, answer, on_message}
use hwarr.Socketio.Server.Results.{
  IsConnectAnswer, IsConnectResult, IsSingle, dispatch_packet_full-IsSingle,
}

-- A packet is sent behind the buffer of a session.
abbrev pub HasSent : Session → Session → Packet → Type 0
HasSent s t q =
    t.send_buffer ≡ s.send_buffer ++ record { type = packet_message; payload = encode q } ∷ []

send-HasSent : (s : Session) (q : Packet) → s.closed ≡ false → HasSent s (send s (encode q)) q
unfolding send signal_send
send-HasSent s q o = ground (arith, o)

module _ {A F : Type 0} (c : Config A F) where
  new_ack_packet_lem :
      (namespace : GoString) (id : ℤ) (values : List (Node F)) {q : Packet}
      → new_ack_packet c.json namespace id values ≡ ok q
      → (q.type ≡ packet_ack) × (q.id ≡ id) × (q.namespace ≡ or_root namespace)
  unfolding new_ack_packet
  new_ack_packet_lem namespace id [] h = ground (arith, h)
  new_ack_packet_lem namespace id (x ∷ xs) h =
      elim (Option-cases (c.json.marshal (arr (items_of (x ∷ xs))))) [
        | inl e ↦ absurd (ground (arith, e, h))
        | inr (text, e) ↦ ground (arith, e, h)
      ]

  build_ack_packet_lem :
      (p : Packet) (values : Option (List (Node F))) {q : Packet}
      → build_ack_packet c p values ≡ ok (some q)
      → (q.type ≡ packet_ack)
        × (q.id ≡ p.id)
        × (q.namespace ≡ or_root p.namespace)
        × (n : ℕ) × (p.id ≡ pos n)
  unfolding build_ack_packet
  build_ack_packet_lem p none h = absurd (ground (arith, h))
  build_ack_packet_lem p (some values) {q} h = go p.id refl
    where
      go :
          (id : ℤ)
          → p.id ≡ id
          → (q.type ≡ packet_ack)
            × (q.id ≡ p.id)
            × (q.namespace ≡ or_root p.namespace)
            × (n : ℕ) × (p.id ≡ pos n)
      go (negsuc n) e = absurd (ground (arith, e, h))
      go (pos n) e = elim (Result-cases (new_ack_packet c.json p.namespace (pos n) values)) [
        | inl (r, f) ↦
            let same : r ≡ q = ground (arith, e, f, h) in
            let l = new_ack_packet_lem p.namespace (pos n) values {q = r} f in
            (ground (arith, same, l), ground (arith, same, e, l), ground (arith, same, l), n, e)
        | inr (x, f) ↦ absurd (ground (arith, e, f, h))
      ]

  -- What is sent back for a message: nothing, or one packet.
  abbrev pub IsAnswered : Session → Session → Result PacketError Packet → Type 0
  IsAnswered s t decoded =
      (t.send_buffer ≡ s.send_buffer)
      ⊎ ((q : Packet) × HasSent s t q
          × (IsConnectAnswer q
              ⊎ ((p : Packet) × (decoded ≡ ok p)
                  × (is_event p.type ≡ true)
                  × (q.type ≡ packet_ack)
                  × (q.id ≡ p.id)
                  × (q.namespace ≡ or_root p.namespace)
                  × (n : ℕ) × (p.id ≡ pos n))))

  answer_connect-IsAnswered :
      (s : Session) (p : Packet) (r : DispatchResult F)
      → s.closed ≡ false
      → IsConnectResult c (some r)
      → IsAnswered s (answer c s (some r) (some p)) (ok p)
  unfolding answer answer_ack send_response send_ack build_ack_packet
  answer_connect-IsAnswered s p r o (e, h) = elim (Option-cases r.response) [
    | inl f ↦ inl (rw (e, f, answer) refl)
    | inr (q, f) ↦ inr (q, rw (e, f, answer) (send-HasSent s q o), inl (h q f))
  ]

  answer_event-IsAnswered :
      (s : Session) (p : Packet) (r : DispatchResult F)
      → s.closed ≡ false
      → r.response ≡ none
      → is_event p.type ≡ true
      → IsAnswered s (answer c s (some r) (some p)) (ok p)
  unfolding answer answer_ack send_response send_ack
  answer_event-IsAnswered s p r o e event =
      elim (Result-cases (build_ack_packet c p r.acknowledgement)) [
        | inr (x, f) ↦ inl (rw (e, f, answer) refl)
        | inl (none, f) ↦ inl (rw (e, f, answer) refl)
        | inl (some q, f) ↦ inr (
          q,
          rw (e, f, answer) (send-HasSent s q o),
          let l = build_ack_packet_lem p r.acknowledgement f in
              inr (p, refl, event, l.0, l.1, l.2, l.3, l.4),
        )
      ]

  result-IsAnswered :
      (s : Session) (p : Packet) (r : Option (DispatchResult F))
      → s.closed ≡ false
      → IsSingle c p r
      → IsAnswered s (answer c s r (some p)) (ok p)
  unfolding answer
  result-IsAnswered s p none o h = inl refl
  result-IsAnswered s p (some r) o (inl h) = answer_connect-IsAnswered s p r o h
  result-IsAnswered s p (some r) o (inr (e, event)) = answer_event-IsAnswered s p r o e event

  answer_refused : (s : Session) (x : PacketError) → IsAnswered s (answer c s none none) (err x)
  unfolding answer
  answer_refused s x = inl refl

  raw_decoded :
      (reader : JsonReader) (sid text : GoString) (w : World A) (p : Packet)
      → decode reader text ≡ ok p
      → dispatch_raw_full c reader sid text w ≡ (dispatch_packet_full c sid p w, some p)
  unfolding dispatch_raw_full
  raw_decoded reader sid text w p e = rw (e, dispatch_raw_full) refl

  raw_refused :
      (reader : JsonReader) (sid text : GoString) (w : World A) {x : PacketError}
      → decode reader text ≡ err x
      → dispatch_raw_full c reader sid text w ≡ ((w, none, some (packet_failure x)), none)
  unfolding dispatch_raw_full
  raw_refused reader sid text w e = rw (e, dispatch_raw_full) refl

  raw-IsAnswered :
      (reader : JsonReader) (text : GoString) (w : World A) (s : Session)
      → s.closed ≡ false
      → let dispatched = dispatch_raw_full c reader s.id text w in
        IsAnswered s (answer c s dispatched.0.1 dispatched.1) (decode reader text)
  raw-IsAnswered reader text w s o = elim (Result-cases (decode reader text)) [
    | inr (x, e) ↦ rw (raw_refused reader s.id text w e, e) (answer_refused s x)
    | inl (p, e) ↦
        rw (raw_decoded reader s.id text w p e, e)
          (result-IsAnswered s p (dispatch_packet_full c s.id p w).1 o
            (dispatch_packet_full-IsSingle c s.id p w))
  ]

  -- For a message on an open session the bridge sends nothing back or one packet: a CONNECT or
  -- CONNECT_ERROR packet, or, where the message is an event packet that carries an id of at least
  -- 0, an ACK with the event's id, in the namespace of the event.
  pub on_message-IsAnswered :
      (reader : JsonReader) (text : GoString) (w : World A) (s : Session)
      → s.closed ≡ false
      → IsAnswered s (on_message c reader text (w, s)).1 (decode reader text)
  unfolding on_message
  on_message-IsAnswered reader text w s o = raw-IsAnswered reader text w s o
