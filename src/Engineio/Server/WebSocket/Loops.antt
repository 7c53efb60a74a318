-- ===== src/Engineio/Server/WebSocket/Loops.antt =====
-- The read and the write loop of server/pkg/engineio/websocket.go.
use hwarr.Base.{
  ℕ, ◌<◌, GoString, codes, List, [], ◌∷◌, Bool, true, false, str_eq, nat_eq, ◌≡◌, ◌⊎◌, inl, inr,
  refl, ap, ◌∙◌, arith, length, Result-cases, map, take,
}
use hwarr.Engineio.Packet.{Packet, decode_packet}
use hwarr.Engineio.Session.{Session, close, handle_packet}
use hwarr.Engineio.Session.Line.{ws_drain}
use hwarr.Engineio.Server.WebSocket.{
  ws_read_loop, ws_write_round, packets_due, write_each, packet_frame,
}

close-closed : (s : Session) (reason : GoString) → (close s reason).closed ≡ true
unfolding close
close-closed s reason = ground arith

close-buffer : (s : Session) (reason : GoString) → (close s reason).send_buffer ≡ s.send_buffer
unfolding close
close-buffer s reason = ground arith

-- However the client ends it, by an error of the connection or a CLOSE packet, and whatever it
-- sent before, the read loop ends with the session closed.
pub ws_read_loop-closed :
    (s : Session) (messages : List (GoString × ℕ)) → (ws_read_loop s messages).closed ≡ true
unfolding ws_read_loop
ws_read_loop-closed s [] = close-closed s (codes "transport close")
ws_read_loop-closed s ((m, now) ∷ rest) = elim (Result-cases (decode_packet m)) [
  | inl (p, e) ↦ ground (
    arith,
    e,
    close-closed (handle_packet s p now) (codes "transport close"),
    ws_read_loop-closed (handle_packet s p now) rest,
  )
  | inr (x, e) ↦ rw (e, ws_read_loop) (ws_read_loop-closed s rest)
]

-- Where the writes succeed for as long as they are asked for, the write loop writes everything that
-- was in the buffer, in its order, and goes on; otherwise it closes the session and ends.
write_each-ok :
    (s : Session) (ps : List Packet) (budget : List Bool)
    → let r = write_each s ps budget in
      ((r.2 ≡ true) × (r.0 ≡ s) × (r.1 ≡ map packet_frame ps))
      ⊎ ((r.2 ≡ false)
          × (r.0 ≡ close s (codes "write error"))
          × (length r.1 < length ps)
          × (r.1 ≡ take (length r.1) (map packet_frame ps)))
unfolding write_each
write_each-ok s [] budget = inl (refl, refl, refl)
write_each-ok s (p ∷ ps) [] = inr (refl, refl, omega arith, refl)
write_each-ok s (p ∷ ps) (false ∷ budget) = inr (refl, refl, omega arith, refl)
write_each-ok s (p ∷ ps) (true ∷ budget) = elim (write_each-ok s ps budget) [
  | inl h ↦ inl (h.0, h.1, ap (λ f. packet_frame p ∷ f) h.2)
  | inr h ↦ inr (h.0, h.1, omega (arith, h.2), ap (λ f. packet_frame p ∷ f) h.3)
]

-- A round of the write loop for waiting packets: either every packet of the buffer is written, in
-- order, and the loop goes on with an empty buffer, or some write fails, the packets before it were
-- written in order, the session is closed, the loop ends and the buffer is empty all the same.
pub ws_write_round_lem :
    (s : Session) (budget : List Bool)
    → let r = ws_write_round s packets_due budget in
      let frames = map packet_frame s.send_buffer in
      (((r.2 ≡ true) × (r.1 ≡ frames) × (r.0.closed ≡ s.closed))
        ⊎ ((r.2 ≡ false)
            × (length r.1 < length s.send_buffer)
            × (r.1 ≡ take (length r.1) frames)
            × (r.0.closed ≡ true)))
      × (r.0.send_buffer ≡ [])
unfolding ws_write_round ws_drain
ws_write_round_lem s budget =
    let emptied = (ws_drain s).0 in
    elim (write_each-ok emptied s.send_buffer budget) [
      | inl h ↦ (inl (h.0, h.2, ap (λ x. x.closed) h.1), ap (λ x. x.send_buffer) h.1)
      | inr h ↦ (
        inr (h.0, h.2, h.3, ap (λ x. x.closed) h.1 ∙ close-closed emptied (codes "write error")),
        ap (λ x. x.send_buffer) h.1 ∙ close-buffer emptied (codes "write error"),
      )
    ]
