-- ===== src/Engineio/Server.antt =====
-- server/pkg/engineio/server.go. A *Session is a number, and `objects` holds what it points to.
-- Durations are in nanoseconds. A response's headers are left out but for the CORS ones, and the
-- body keeps the data of which the source prints the JSON. What is sent to the client of a socket
-- is for websocket.go.
pub mod Http
pub mod Pings
pub mod Forgetting
pub mod WebSocket
mod Examples
use hwarr.Base.{
  ℕ, ◌+◌, ◌*◌, ◌/◌, GoString, codes, List, [], ◌∷◌, Bool, true, false, not, ◌&&◌, Option, none,
  some, ltb, if◌then◌else◌, ◌==◌, str_eq, nat_eq,
}
use hwarr.GoMap.{GoMap, get, assign, delete}
use hwarr.Engineio.Packet.{packet_ping}
use hwarr.Engineio.Session.{
  Session, CloseHandler, removes_session, disconnects_all, close, is_closed, last_active_at,
  send_packet,
}

pub record ServerConfig : Type 0 where
  pub ping_interval : ℕ
  pub ping_timeout : ℕ
  pub max_payload : ℕ
  pub upgrades : Option (List GoString)
  pub allowed_origins : List GoString

abbrev pub second : ℕ
second = 1000000000

unfoldable pub default_config : ServerConfig
default_config = record {
  ping_interval = 25 * second;
  ping_timeout = 20 * second;
  max_payload = 1000000;
  upgrades = some (codes "websocket" ∷ []);
  allowed_origins = codes "http://localhost:5173" ∷ codes "http://localhost:3000" ∷ [];
}

pub record OpenPacketData : Type 0 where
  pub sid : GoString
  pub upgrades : List GoString
  pub ping_interval : ℕ
  pub ping_timeout : ℕ
  pub max_payload : ℕ

pub record Server : Type 0 where
  pub config : ServerConfig
  pub objects : GoMap ℕ Session
  pub sessions : GoMap GoString ℕ
  pub next : ℕ
  pub on_connect : Option (Session → Session)
  pub done : Bool

-- NewServer, before the first tick of its ping loop
unfoldable pub new_server : ServerConfig → Server
new_server config = record {
  config = config;
  objects = [];
  sessions = [];
  next = 0;
  on_connect = none;
  done = false;
}

unfoldable pub set_on_connect : Server → (Session → Session) → Server
set_on_connect srv fn = record srv { on_connect = some fn }

abbrev pub connected : Option (Session → Session) → Session → Session
connected none s = s
connected (some fn) s = fn s

unfoldable pub get_session : Server → GoString → Option ℕ
get_session srv sid = get srv.sessions sid

unfoldable pub remove_session : Server → GoString → Server
remove_session srv sid = record srv { sessions = delete srv.sessions sid }

-- What a pointer points to.
unfoldable pub session_at : Server → ℕ → Option Session
session_at srv p = get srv.objects p

unfoldable pub store : Server → ℕ → Session → Server
store srv p s = record srv { objects = assign srv.objects p s }

-- The close handler, where the operation that led from one state to the other has called it.
abbrev pub run_close_handler : Server → Option CloseHandler → GoString → Server
run_close_handler srv (some removes_session) sid = remove_session srv sid
run_close_handler srv (some disconnects_all) sid = srv
run_close_handler srv none sid = srv

unfoldable pub update : Server → ℕ → Session → Session → Server
unfolding store remove_session
update srv p before after =
    if not before.closed && after.closed
    then run_close_handler (store srv p after) before.on_close before.id
    else store srv p after

unfoldable pub close_session : Server → ℕ → GoString → Server
unfolding session_at update close
close_session srv p reason = elim (session_at srv p) [
  | none ↦ srv
  | some s ↦ update srv p s (close s reason)
]

-- The Range of Close over the sessions.
unfoldable pub close_each : Server → GoMap GoString ℕ → Server
unfolding close_session
close_each srv [] = srv
close_each srv ((sid, p) ∷ rest) =
    close_each (close_session srv p (codes "server shutting down")) rest

-- Close; a second call panics, since `done` is closed already.
unfoldable pub close_server : Server → Option Server
unfolding close_each
close_server srv =
    if srv.done then none else some (close_each (record srv { done = true }) srv.sessions)

abbrev pub listed : GoString → List GoString → Bool
listed origin [] = false
listed origin (a ∷ rest) = let found = listed origin rest in if a == origin then true else found

unfoldable pub is_origin_allowed : ServerConfig → GoString → Bool
is_origin_allowed config [] = false
is_origin_allowed config (c ∷ origin) = listed (c ∷ origin) config.allowed_origins

-- A new session, registered under its id; the id is drawn at random.
unfoldable pub add_session : Server → GoString → Session → Server
add_session srv id s = record srv {
  objects = assign srv.objects srv.next s;
  sessions = assign srv.sessions id srv.next;
  next = srv.next + 1;
}

unfoldable pub open_data : ServerConfig → GoString → List GoString → OpenPacketData
open_data config sid upgrades = record {
  sid = sid;
  upgrades = upgrades;
  ping_interval = config.ping_interval / 1000000;
  ping_timeout = config.ping_timeout / 1000000;
  max_payload = config.max_payload;
}

-- The iteration of pingLoop over the sessions, at a tick of its ticker.
abbrev pub is_overdue : Session → ServerConfig → ℕ → Bool
is_overdue s config now = ltb (last_active_at s + (config.ping_interval + config.ping_timeout)) now

unfoldable pub ping_session : Server → ℕ → GoString → ℕ → Session → Server
unfolding remove_session close_session store send_packet is_closed
ping_session srv now sid p s =
    if is_closed s
    then remove_session srv sid
    else if is_overdue s srv.config now
    then remove_session (close_session srv p (codes "ping timeout")) sid
    else store srv p (send_packet s (record { type = packet_ping; payload = [] }))

unfoldable pub ping_each : Server → ℕ → GoMap GoString ℕ → Server
unfolding ping_session session_at
ping_each srv now [] = srv
ping_each srv now ((sid, p) ∷ rest) = elim (session_at srv p) [
  | none ↦ ping_each srv now rest
  | some s ↦ ping_each (ping_session srv now sid p s) now rest
]

unfoldable pub ping_tick : Server → ℕ → Server
unfolding ping_each
ping_tick srv now = if srv.done then srv else ping_each srv now srv.sessions
