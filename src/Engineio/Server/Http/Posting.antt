-- ===== src/Engineio/Server/Http/Posting.antt =====
-- The packets of a POST to ServeHTTP of server/pkg/engineio/server.go.
use hwarr.Base.{
  ℕ, zero, suc, nat_beq_iff, ◌≤◌, GoString, codes, List, [], ◌∷◌, ◌++◌, false, Option, none, some,
  ◌≡◌, ◌∙◌, sym, ap, refl, arith, length, take, str_eq, nat_eq, str_beq, All, append_assoc,
  append-nil,
}
use hwarr.GoMap.Laws.{get-assign}
use hwarr.Engineio.Packet.{Packet, encode_payload}
use hwarr.Engineio.Packet.RoundTrip.{IsFramed, decode_payload-encode_payload}
use hwarr.Engineio.Session.{Session, MessageHandler, is_closed, handle_packet}
use hwarr.Engineio.Server.{Server, get_session, session_at, store, update}
use hwarr.Engineio.Server.Http.{
  Request, text, serve_http, handle_each, handle_polling_post, find_session, serve_session, found,
  respond,
}
use hwarr.Engineio.Server.Http.Answers.{
  messages, IsNoClose, answers_to, calls_after, all_answers, HasHandled, handle_packet-open,
  messages-cons, calls-counted,
}
use hwarr.Engineio.Server.Http.Polling.{IsPoll, serve_http-found}

update-open :
    (srv : Server) (p : ℕ) (s after : Session)
    → after.closed ≡ false
    → session_at (update srv p s after) p ≡ some after
unfolding update store session_at
update-open srv p s after c = ground (arith, c, get-assign srv.objects p p after, nat_beq_iff p p)

HasHandled-cons :
    (handler : MessageHandler) (s t u : Session) (p : Packet) (ps : List Packet)
    → HasHandled handler s (p ∷ []) t
    → HasHandled handler t ps u
    → HasHandled handler s (p ∷ ps) u
HasHandled-cons handler s t u p ps h k = (
  k.0
      ∙ ap (λ c. c ++ messages ps) h.0
      ∙ append_assoc s.calls (messages (p ∷ [])) (messages ps)
      ∙ ap (λ c. s.calls ++ c) (messages-cons p ps),
  k.1
      ∙ ap (λ n. t.send_buffer ++ all_answers handler n ps) (ap length h.0 ∙ calls-counted s p)
      ∙ ap (λ b. b ++ all_answers handler (calls_after (length s.calls) p) ps)
          (h.1 ∙ ap (λ b. s.send_buffer ++ b) (append-nil (answers_to handler (length s.calls) p)))
      ∙ append_assoc s.send_buffer (answers_to handler (length s.calls) p)
          (all_answers handler (calls_after (length s.calls) p) ps),
  k.2,
  k.3,
)

handle_each-HasHandled :
    (handler : MessageHandler) (srv : Server) (p : ℕ) (s : Session) (ps : List Packet) (now : ℕ)
    → session_at srv p ≡ some s
    → s.closed ≡ false
    → s.on_message ≡ some handler
    → All IsNoClose ps
    → (after : Session) × (session_at (handle_each srv p s ps now) p ≡ some after)
      × HasHandled handler s ps after
unfolding handle_each
handle_each-HasHandled handler srv p s [] now f c m h =
    (s, f, (sym (append-nil s.calls), sym (append-nil s.send_buffer), c, m))
handle_each-HasHandled handler srv p s (q ∷ qs) now f c m h =
    let t = handle_packet s q now in
    let one = handle_packet-open handler s q now c m h.0 in
    let rest =
      handle_each-HasHandled handler (update srv p s t) p t qs now (update-open srv p s t one.2)
        one.2 one.3 h.1 in
    (rest.0, rest.1, HasHandled-cons handler s t rest.0 q qs one rest.2)

take-all : (n : ℕ) (xs : GoString) → length xs ≤ n → take n xs ≡ xs
take-all zero [] h = refl
take-all zero (x ∷ xs) h = absurd (omega (arith, h))
take-all (suc n) [] h = refl
take-all (suc n) (x ∷ xs) h = ap (λ t. x ∷ t) (take-all n xs (omega (arith, h)))

post-handles :
    (srv : Server) (r : Request) (p : ℕ) (s : Session) (now : ℕ) (ps : List Packet)
    → r.method ≡ codes "POST"
    → s.closed ≡ false
    → r.content ≡ some (encode_payload ps)
    → length (encode_payload ps) ≤ srv.config.max_payload
    → All IsFramed ps
    → serve_session srv r p s now
      ≡ (handle_each srv p s ps now, respond r srv 200 (text (codes "ok")))
unfolding handle_polling_post str_beq is_closed
post-handles srv r p s now ps m c b l framed =
    rw
      (
        c,
        m,
        b,
        take-all srv.config.max_payload (encode_payload ps) l,
        decode_payload-encode_payload ps framed,
      )
      refl

found-session_at :
    (srv : Server) (o : Option ℕ) (p : ℕ) (s : Session)
    → found srv o ≡ some (p, s)
    → session_at srv p ≡ some s
found-session_at srv none p s h = cc
found-session_at srv (some q) p s h = ground (arith, h)

-- A POST to an open session with a callback for messages that sends to the same session, whose
-- body is the encoding of packets, each of one of the seven types with no separator byte in its
-- data and none a CLOSE, and no longer than the limit, is answered "ok": the callback has been
-- called with the data of each message in their order; behind what was in the buffer stand,
-- packet by packet, a pong with the same data for each ping and what the callback sends at that
-- call for each message; and the session is still open.
pub post_is_handled :
    (srv : Server) (r : Request) (fresh_id : GoString) (now p : ℕ) (s : Session) (ps : List Packet)
    (handler : MessageHandler)
    → IsPoll r (codes "POST")
    → find_session srv r.sid ≡ some (p, s)
    → s.closed ≡ false
    → s.on_message ≡ some handler
    → r.content ≡ some (encode_payload ps)
    → length (encode_payload ps) ≤ srv.config.max_payload
    → All IsFramed ps
    → All IsNoClose ps
    → let result = serve_http srv r fresh_id now in
      (after : Session) × (session_at result.0 p ≡ some after)
      × (after.calls ≡ s.calls ++ messages ps)
      × (after.send_buffer ≡ s.send_buffer ++ all_answers handler (length s.calls) ps)
      × (after.closed ≡ false)
      × (result.1 ≡ respond r srv 200 (text (codes "ok")))
unfolding str_beq find_session
post_is_handled srv r fresh_id now p s ps handler h f c m b l framed n =
    let at = found-session_at srv (get_session srv r.sid) p s f in
    let served =
      serve_http-found srv r fresh_id now p s (codes "POST") h refl f
      ∙ post-handles srv r p s now ps h.0 c b l framed in
    let handled = handle_each-HasHandled handler srv p s ps now at c m n in
    (
      handled.0,
      ap (λ x. session_at x.0 p) served ∙ handled.1,
      handled.2.0,
      handled.2.1,
      handled.2.2,
      ap (λ x. x.1) served,
    )
