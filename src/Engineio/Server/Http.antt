-- ===== src/Engineio/Server/Http.antt =====
-- ServeHTTP of server/pkg/engineio/server.go: handshakes and polls. A request that polls may wait
-- in Drain; what its `select` ends with is the argument of `answer_poll`.
pub mod Polling
pub mod Posting
pub mod Answers
pub mod Refusals
use hwarr.Base.{
  ℕ, GoString, codes, List, [], ◌∷◌, Bool, Option, none, some, Result, ok, err, get_or, take,
  if◌then◌else◌, ◌==◌, str_eq, nat_eq,
}
use hwarr.Engineio.Packet.{Packet, PacketError, encode_payload, decode_payload}
use hwarr.Engineio.Session.{
  Session, removes_session, new_session, set_on_close, is_closed, drain_start, drain_woken,
  handle_packet, noop,
}
use hwarr.Engineio.Server.{
  Server, OpenPacketData, connected, get_session, session_at, store, update, is_origin_allowed,
  add_session, open_data,
}

-- A body that cannot be read is none.
pub record Request : Type 0 where
  pub method : GoString
  pub origin : GoString
  pub transport : GoString
  pub sid : GoString
  pub remote_addr : GoString
  pub content : Option GoString

pub data Body : Type 0 where
  nothing : Body
  opened : OpenPacketData → Body
  text : GoString → Body
  failure : GoString → Body

pub record Response : Type 0 where
  pub status : ℕ
  pub cors : Bool
  pub content : Body

-- A request is answered, waits in a poll of a session, or becomes a WebSocket.
pub data Outcome : Type 0 where
  answered : Response → Outcome
  waits : ℕ → Outcome
  upgraded : Outcome

abbrev pub respond : Request → Server → ℕ → Body → Outcome
respond r srv status content =
    answered
      (record { status = status; cors = is_origin_allowed srv.config r.origin; content = content })

unfoldable pub send_error : Request → Server → ℕ → GoString → Server × Outcome
send_error r srv status message = (srv, respond r srv status (failure message))

-- The response is written when the session is stored and onConnect has run.
unfoldable pub handle_handshake : Server → Request → GoString → ℕ → Server × Outcome
unfolding new_session set_on_close add_session open_data
handle_handshake srv r id now =
    let fresh = new_session id srv.config.ping_interval srv.config.ping_timeout now in
    let s = set_on_close (record fresh { remote_addr = r.remote_addr }) removes_session in
    let opened_with = open_data srv.config id (get_or srv.config.upgrades []) in
    (add_session srv id (connected srv.on_connect s), respond r srv 200 (opened opened_with))

-- The body of an answer to a poll: a NOOP packet where there are none.
unfoldable pub poll_body : List Packet → GoString
unfolding encode_payload
poll_body [] = encode_payload (noop ∷ [])
poll_body (p ∷ ps) = encode_payload (p ∷ ps)

-- The session of a poll, after its Drain has got so far, and the packets, if it has some.
abbrev pub poll_outcome : Request → Server → ℕ → Session × Option (List Packet) → Server × Outcome
poll_outcome r srv p (s, none) = (store srv p s, waits p)
poll_outcome r srv p (s, some packets) =
    (store srv p s, respond r srv 200 (text (poll_body packets)))

unfoldable pub handle_polling_get : Server → Request → ℕ → Session → ℕ → Server × Outcome
unfolding drain_start store
handle_polling_get srv r p s now = poll_outcome r srv p (drain_start s now)

pub data Wakeup : Type 0 where
  signalled : Wakeup
  was_closed : Wakeup
  timed_out : Wakeup

abbrev pub drained : Session → Wakeup → ℕ → Session × List Packet
drained s signalled now = drain_woken s now
drained s was_closed now = (s, [])
drained s timed_out now = (s, [])

-- handlePollingGet behind the wait of Drain
unfoldable pub answer_poll : Server → Request → ℕ → Session → Wakeup → ℕ → Server × Outcome
unfolding drain_woken store
answer_poll srv r p s wakeup now = (
  store srv p (drained s wakeup now).0,
  respond r srv 200 (text (poll_body (drained s wakeup now).1)),
)

-- The packets of a POST, in their order. A packet may close the session; those behind it are
-- handled all the same.
unfoldable pub handle_each : Server → ℕ → Session → List Packet → ℕ → Server
unfolding handle_packet update
handle_each srv p s [] now = srv
handle_each srv p s (packet ∷ rest) now =
    let after = handle_packet s packet now in handle_each (update srv p s after) p after rest now

abbrev pub posted :
    Server → Request → ℕ → Session → ℕ → Result PacketError (List Packet) → Server × Outcome
posted srv r p s now (err e) = send_error r srv 400 (codes "Invalid payload")
posted srv r p s now (ok packets) =
    (handle_each srv p s packets now, respond r srv 200 (text (codes "ok")))

-- The body is cut off at the limit.
abbrev pub post_content : Server → Request → ℕ → Session → ℕ → Option GoString → Server × Outcome
post_content srv r p s now none = send_error r srv 400 (codes "Failed to read body")
post_content srv r p s now (some content) =
    posted srv r p s now (decode_payload (take srv.config.max_payload content))

unfoldable pub handle_polling_post : Server → Request → ℕ → Session → ℕ → Server × Outcome
unfolding send_error decode_payload handle_each
handle_polling_post srv r p s now = post_content srv r p s now r.content

abbrev pub serve_session : Server → Request → ℕ → Session → ℕ → Server × Outcome
serve_session srv r p s now =
    if is_closed s
    then send_error r srv 400 (codes "Session closed")
    else if r.method == codes "GET"
    then handle_polling_get srv r p s now
    else if r.method == codes "POST"
    then handle_polling_post srv r p s now
    else send_error r srv 405 (codes "Method not allowed")

-- The session of a `sid`, with its pointer.
abbrev pub found : Server → Option ℕ → Option (ℕ × Session)
found srv none = none
found srv (some p) = elim (session_at srv p) [ none ↦ none | some s ↦ some (p, s) ]

abbrev pub serve_found : Server → Request → ℕ → Option (ℕ × Session) → Server × Outcome
serve_found srv r now none = send_error r srv 400 (codes "Session ID unknown")
serve_found srv r now (some (p, s)) = serve_session srv r p s now

unfoldable pub find_session : Server → GoString → Option (ℕ × Session)
unfolding get_session session_at
find_session srv sid = found srv (get_session srv sid)

-- `fresh_id` is the id that a handshake draws.
unfoldable pub serve_http : Server → Request → GoString → ℕ → Server × Outcome
unfolding send_error handle_handshake find_session is_closed handle_polling_get handle_polling_post
serve_http srv r fresh_id now =
    if r.method == codes "OPTIONS"
    then (srv, respond r srv 200 nothing)
    else if r.transport == codes "websocket"
    then (srv, upgraded)
    else if r.transport == codes "polling"
    then (if r.sid == []
        then handle_handshake srv r fresh_id now
        else serve_found srv r now (find_session srv r.sid))
    else send_error r srv 400 (codes "Transport unknown")
