-- ===== src/Engineio/Server/Examples.antt =====
-- A server with two sessions, on which the theorems about server/pkg/engineio/server.go and
-- websocket.go are applied.
use hwarr.Base.{
  ℕ, ◌≤◌, GoString, codes, List, [], ◌∷◌, true, false, str_beq, Option, none, some, ok, str_eq,
  nat_eq, ◌≡◌, ◌↔◌, ◌⊎◌, refl, arith, length,
}
use hwarr.GoMap.{get}
use hwarr.Engineio.Packet.{
  Packet, packet_message, packet_ping, encode_payload, decode_payload, encode, rune_string,
}
use hwarr.Base.Split.{join_parts}
use hwarr.Engineio.Session.{Session, MessageHandler, disconnects_all, polling}
use hwarr.Engineio.Server.{Server, get_session, session_at, store}
use hwarr.Engineio.Server.Http.{Request, text, respond, serve_http, send_error, find_session}
use hwarr.Engineio.Server.Http.Refusals.{is_refused, refusal_unchanged}
use hwarr.Engineio.Server.Http.Polling.{poll_returns_buffer}
use hwarr.Engineio.Server.Http.Answers.{messages, all_answers}
use hwarr.Engineio.Server.Http.Posting.{post_is_handled}
use hwarr.Engineio.Server.WebSocket.{ws_read_loop, answer_probe, finish_upgrade, pong_probe}
use hwarr.Engineio.Server.WebSocket.Upgrade.{IsProbed, IsFinished, ws_upgrade_lem}
use hwarr.Engineio.Server.WebSocket.Loops.{ws_read_loop-closed}

abbrev hello : Packet
hello = record { type = packet_message; payload = codes "hi" }

-- A callback that sends what it was called with back, behind the number of calls before.
abbrev echo : MessageHandler
echo n payload = (n ∷ payload) ∷ []

abbrev session : GoString → ℕ → Session
session id now = record {
  id = id;
  transport = polling;
  remote_addr = [];
  ping_interval = 25000000000;
  ping_timeout = 20000000000;
  send_buffer = hello ∷ [];
  recv_signal = true;
  closed = false;
  last_active = now;
  on_message = some echo;
  on_close = some disconnects_all;
  ws_conn = none;
  ws_signal = false;
  upgrading = false;
  upgrade_done = false;
  calls = [];
}

-- The first session was active at the start and the second a minute later.
abbrev server : Server
server = record {
  config = record {
    ping_interval = 25000000000;
    ping_timeout = 20000000000;
    max_payload = 1000000;
    upgrades = none;
    allowed_origins = codes "http://a" ∷ [];
  };
  objects = (0, session (codes "s1") 0) ∷ (1, session (codes "s2") 60000000000) ∷ [];
  sessions = (codes "s1", 0) ∷ (codes "s2", 1) ∷ [];
  next = 2;
  on_connect = none;
  done = false;
}

abbrev request : GoString → GoString → GoString → Option GoString → Request
request method transport sid content = record {
  method = method;
  origin = codes "http://a";
  transport = transport;
  sid = sid;
  remote_addr = [];
  content = content;
}

abbrev lost : Request
lost = request (codes "GET") (codes "polling") (codes "s3") none

lost-is_refused : is_refused (serve_http server lost (codes "s9") 5).1 ≡ true
unfolding serve_http find_session str_beq get send_error get_session
lost-is_refused = refl

refusal_unchanged_example : (serve_http server lost (codes "s9") 5).0 ≡ server
refusal_unchanged_example = refusal_unchanged server lost (codes "s9") 5 lost-is_refused

abbrev poll : Request
poll = request (codes "GET") (codes "polling") (codes "s1") none

s1_found : find_session server (codes "s1") ≡ some (0, session (codes "s1") 0)
unfolding find_session str_beq get get_session session_at
s1_found = refl

poll_returns_buffer_example :
    let result = serve_http server poll (codes "s9") 5 in
    (body : GoString) × (result.1 ≡ respond poll server 200 (text body))
    × (decode_payload body ≡ ok (hello ∷ []))
    × (result.0
        ≡ store server 0 (record (session (codes "s1") 0) { send_buffer = []; last_active = 5 }))
unfolding str_beq
poll_returns_buffer_example =
    poll_returns_buffer server poll (codes "s9") 5 0 (session (codes "s1") 0) (refl, refl, refl)
      s1_found refl (omega arith) (omega arith)

-- A ping and a message.
abbrev batch : List Packet
batch = record { type = packet_ping; payload = codes "x" } ∷ hello ∷ []

abbrev post : Request
post = request (codes "POST") (codes "polling") (codes "s1") (some (encode_payload batch))

batch_fits : length (encode_payload batch) ≤ 1000000
unfolding encode_payload encode rune_string join_parts
batch_fits = omega arith

post_is_handled_example :
    let result = serve_http server post (codes "s9") 5 in
    (after : Session) × (session_at result.0 0 ≡ some after)
    × (after.calls ≡ messages batch)
    × (after.send_buffer ≡ hello ∷ all_answers echo 0 batch)
    × (after.closed ≡ false)
    × (result.1 ≡ respond post server 200 (text (codes "ok")))
unfolding str_beq
post_is_handled_example =
    post_is_handled server post (codes "s9") 5 0 (session (codes "s1") 0) batch echo
      (refl, refl, refl) s1_found refl refl refl batch_fits (omega arith) (refl, (refl, tt))

ws_upgrade_lem_example :
    let probed = answer_probe (session (codes "s1") 0) (some (codes "2probe")) true in
    let finished = finish_upgrade probed.0 (some (codes "5")) 7 in
    ((probed.1 ≡ some pong_probe)
      ↔ ((some (codes "2probe") ≡ some (codes "2probe")) × (true ≡ true)))
    × ((some (codes "2probe") ≡ some (codes "2probe")) ⊎ (probed.0 ≡ session (codes "s1") 0))
    × ((¬ (some (codes "2probe") ≡ some (codes "2probe")))
        ⊎ IsProbed (session (codes "s1") 0) true probed.0)
    × ((finished.1 ≡ true) ↔ ((rest : GoString) × (some (codes "5") ≡ some (b'5' ∷ rest))))
    × IsFinished probed.0 7 finished.1 finished.0
ws_upgrade_lem_example =
    ws_upgrade_lem (session (codes "s1") 0)
      (answer_probe (session (codes "s1") 0) (some (codes "2probe")) true).0 (some (codes "2probe"))
      (some (codes "5")) true 7

ws_read_loop-closed_example :
    (ws_read_loop (session (codes "s1") 0) ((codes "4hi", 3) ∷ (codes "1", 4) ∷ [])).closed ≡ true
ws_read_loop-closed_example =
    ws_read_loop-closed (session (codes "s1") 0) ((codes "4hi", 3) ∷ (codes "1", 4) ∷ [])
