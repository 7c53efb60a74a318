-- ===== src/Engineio/Server/Http/Polling.antt =====
-- Polls and posts of ServeHTTP of server/pkg/engineio/server.go, with the payloads that they carry.
use hwarr.Base.{
  ℕ, ◌<◌, GoString, codes, List, [], ◌∷◌, Bool, true, false, some, ok, ◌==◌, ◌≡◌, ◌∙◌, ap, refl,
  arith, length, str_eq, nat_eq, str_beq, All, All-append, lt→ltb,
}
use hwarr.Engineio.Packet.{Packet, decode_payload}
use hwarr.Engineio.Packet.RoundTrip.{IsFramed, decode_payload-encode_payload}
use hwarr.Engineio.Session.{Session, drain_start, is_closed, with_noop, noop}
use hwarr.Engineio.Server.{Server, store}
use hwarr.Engineio.Server.Http.{
  Request, text, serve_http, handle_polling_get, find_session, serve_session, respond, poll_body,
}

-- A request with a method on an existing session.
abbrev pub IsPoll : Request → GoString → Type 0
IsPoll r method = (r.method ≡ method) × (r.transport ≡ codes "polling") × ((r.sid == []) ≡ false)

pub serve_http-found :
    (srv : Server) (r : Request) (fresh_id : GoString) (now p : ℕ) (s : Session) (m : GoString)
    → IsPoll r m
    → (m == codes "OPTIONS") ≡ false
    → find_session srv r.sid ≡ some (p, s)
    → serve_http srv r fresh_id now ≡ serve_session srv r p s now
unfolding serve_http str_beq
serve_http-found srv r fresh_id now p s m h n f = rw (h.0, n, h.1, h.2, f) refl

IsFramed-noop : IsFramed noop
IsFramed-noop = omega arith

with_noop-IsFramed : (b : Bool) (ps : List Packet) → All IsFramed ps → All IsFramed (with_noop b ps)
with_noop-IsFramed true ps h = All-append IsFramed ps (noop ∷ []) h (IsFramed-noop, tt)
with_noop-IsFramed false ps h = h

poll_body-decode :
    (ps : List Packet) → 0 < length ps → All IsFramed ps → decode_payload (poll_body ps) ≡ ok ps
unfolding poll_body
poll_body-decode [] l h = absurd (omega (arith, l))
poll_body-decode (p ∷ ps) l h = decode_payload-encode_payload (p ∷ ps) h

length-with_noop : (b : Bool) (ps : List Packet) → 0 < length ps → 0 < length (with_noop b ps)
length-with_noop true [] h = omega arith
length-with_noop true (p ∷ ps) h = omega arith
length-with_noop false ps h = h

get-drains :
    (srv : Server) (r : Request) (p : ℕ) (s : Session) (now : ℕ)
    → r.method ≡ codes "GET"
    → s.closed ≡ false
    → 0 < length s.send_buffer
    → serve_session srv r p s now ≡ (
      store srv p (record s { send_buffer = []; last_active = now }),
      respond r srv 200 (text (poll_body (with_noop s.upgrading s.send_buffer))),
    )
unfolding handle_polling_get drain_start str_beq is_closed
get-drains srv r p s now m c l = rw (c, m, lt→ltb 0 (length s.send_buffer) l) refl

-- A GET that polls an open session with packets in its buffer is answered at once with a payload
-- that decodes to exactly these packets in their order, if each is of one of the seven types and
-- has no separator byte in its data, followed by a NOOP where an upgrade is in progress; the
-- buffer is then empty and the session was active at that time.
pub poll_returns_buffer :
    (srv : Server) (r : Request) (fresh_id : GoString) (now p : ℕ) (s : Session)
    → IsPoll r (codes "GET")
    → find_session srv r.sid ≡ some (p, s)
    → s.closed ≡ false
    → 0 < length s.send_buffer
    → All IsFramed s.send_buffer
    → let result = serve_http srv r fresh_id now in
      (body : GoString) × (result.1 ≡ respond r srv 200 (text body))
      × (decode_payload body ≡ ok (with_noop s.upgrading s.send_buffer))
      × (result.0 ≡ store srv p (record s { send_buffer = []; last_active = now }))
unfolding str_beq
poll_returns_buffer srv r fresh_id now p s h f c l framed =
    let served =
      serve_http-found srv r fresh_id now p s (codes "GET") h refl f
      ∙ get-drains srv r p s now h.0 c l in
    let packets = with_noop s.upgrading s.send_buffer in
    (
      poll_body packets,
      ap (λ x. x.1) served,
      poll_body-decode packets (length-with_noop s.upgrading s.send_buffer l)
          (with_noop-IsFramed s.upgrading s.send_buffer framed),
      ap (λ x. x.0) served,
    )
