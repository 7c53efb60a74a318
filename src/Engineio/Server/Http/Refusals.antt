-- ===== src/Engineio/Server/Http/Refusals.antt =====
-- The requests that ServeHTTP of server/pkg/engineio/server.go refuses.
use hwarr.Base.{
  ℕ, GoString, List, Bool, true, false, Option, none, some, Result, ok, err, ◌≡◌, refl, arith, leb,
  take, str_eq,
}
use hwarr.Engineio.Packet.{decode_payload, Packet}
use hwarr.Engineio.Session.{Session, drain_start}
use hwarr.Engineio.Server.{Server}
use hwarr.Engineio.Server.Http.{
  Request, Outcome, answered, waits, upgraded, serve_http, send_error, handle_handshake,
  handle_polling_get, handle_polling_post, find_session, poll_outcome, serve_session, serve_found,
  posted, post_content,
}

abbrev pub is_refused : Outcome → Bool
is_refused (answered r) = leb 400 r.status
is_refused (waits p) = false
is_refused upgraded = false

abbrev IsHarmless : Server → Server × Outcome → Type 0
IsHarmless srv result = is_refused result.1 ≡ true → result.0 ≡ srv

poll_outcome-IsHarmless :
    (r : Request) (srv : Server) (p : ℕ) (d : Session × Option (List Packet))
    → IsHarmless srv (poll_outcome r srv p d)
poll_outcome-IsHarmless r srv p (s, none) = ground arith
poll_outcome-IsHarmless r srv p (s, some packets) = ground arith

post_content-IsHarmless :
    (srv : Server) (r : Request) (p : ℕ) (s : Session) (now : ℕ) (content : Option GoString)
    → IsHarmless srv (post_content srv r p s now content)
unfolding send_error
post_content-IsHarmless srv r p s now none = λ _. refl
post_content-IsHarmless srv r p s now (some content) =
    posted-IsHarmless (decode_payload (take srv.config.max_payload content))
  where
    posted-IsHarmless : (d : Result _ (List Packet)) → IsHarmless srv (posted srv r p s now d)
    posted-IsHarmless (ok packets) = ground arith
    posted-IsHarmless (err e) = λ _. refl

serve_session-IsHarmless :
    (srv : Server) (r : Request) (p : ℕ) (s : Session) (now : ℕ)
    → IsHarmless srv (serve_session srv r p s now)
unfolding send_error handle_polling_get handle_polling_post
serve_session-IsHarmless srv r p s now = ground (
  arith,
  poll_outcome-IsHarmless r srv p (drain_start s now),
  post_content-IsHarmless srv r p s now r.content,
)

serve_found-IsHarmless :
    (srv : Server) (r : Request) (now : ℕ) (o : Option (ℕ × Session))
    → IsHarmless srv (serve_found srv r now o)
unfolding send_error
serve_found-IsHarmless srv r now none = λ _. refl
serve_found-IsHarmless srv r now (some (p, s)) = serve_session-IsHarmless srv r p s now

-- A request that ServeHTTP answers with a status of 400 or more, for an unknown transport, an
-- unknown or closed session, a method, a body that cannot be read or an invalid payload, leaves
-- the server and its sessions as they were.
pub refusal_unchanged :
    (srv : Server) (r : Request) (fresh_id : GoString) (now : ℕ)
    → is_refused (serve_http srv r fresh_id now).1 ≡ true
    → (serve_http srv r fresh_id now).0 ≡ srv
unfolding serve_http send_error handle_handshake
refusal_unchanged srv r fresh_id now =
    ground (arith, serve_found-IsHarmless srv r now (find_session srv r.sid))
