-- ===== src/Sio/Examples.antt =====
-- A server, a manager and calls on which the theorems about the handlers of server/internal/sio are
-- applied.
use hwarr.Base.{contains}
use hwarr.Base.{
  ℕ, ◌+◌, ◌*◌, ◌≤◌, GoString, List, [], ◌∷◌, codes, true, false, none, some, str_eq, str_beq, ◌≡◌,
  refl,
}
use hwarr.GoMap.{get, assign}
use hwarr.Socketio.Room.{new_room_manager, in_room}
use hwarr.Socketio.Namespace.{World, Handlers, new_space}
use hwarr.Socketio.Namespace.Connection.{member}
use hwarr.Socketio.Packet.Binary.{Node}
use hwarr.Socketio.Server.{Config, get_namespace}
use hwarr.Sio.ConnectionManager.{
  Manager, ConnectionInfo, new_manager, new_connection_info, next_reconnect_count, add, find,
  get_rooms,
}
use hwarr.Sio.Viewport.{chat_room, main_namespace, join_viewport_rooms}
use hwarr.Sio.Viewport.Tracking.{join_viewport_rooms_tracks}
use hwarr.Sio.RateLimiter.{TokenBucket, new_rate_limiter, violations_of, max_violations}
use hwarr.Sio.RateLimiter.Violations.{
  Call, run_allows, denials, disconnections, run_allows-disconnections,
}

abbrev pub App : Type 0
App = Unit {0}

abbrev pub main_space : Handlers (World App) (Node ℕ)
main_space = record {
  path = codes "/";
  event_handlers = [];
  connect_handler = none;
  disconnect_handler = none;
  middleware = [];
}

abbrev pub server : Config App ℕ
server = record {
  namespaces = (codes "/", main_space) ∷ [];
  json = record {
    marshal = λ t. some (codes "{}");
    unmarshal = λ s. none;
    unmarshal_array = λ s. none;
    unmarshal_string = λ s. none;
  };
  send_to = some (λ sid. true);
}

pub main_found : get_namespace server main_namespace ≡ some main_space
unfolding get_namespace get str_beq
main_found = refl

-- Nobody is in a room yet.
abbrev pub quiet : World App
quiet = record { spaces = []; sent = []; app = tt }

abbrev sid : GoString
sid = codes "s1"

abbrev one : Manager
one = add new_manager sid [] 5000

abbrev info : ConnectionInfo
info = new_connection_info sid [] 5000 0

one_found : find one sid ≡ some info
unfolding add new_manager find get assign str_beq next_reconnect_count
one_found = refl

one_tracked : (x : GoString) → member quiet (codes "/") sid x ≡ contains (get_rooms one sid) x
unfolding get_rooms find add new_manager get assign str_beq new_space new_room_manager in_room
    new_connection_info
one_tracked x = refl

abbrev grids : List GoString
grids = codes "g1" ∷ codes "g2" ∷ []

join_viewport_rooms_tracks_example :
    let after = join_viewport_rooms server sid grids (quiet, one) in
    (member after.0 (codes "/") sid (codes "g1") ≡ contains grids (codes "g1"))
    × (member after.0 (codes "/") sid chat_room ≡ contains grids chat_room)
    × (contains (get_rooms after.1 sid) (codes "g1") ≡ contains grids (codes "g1"))
join_viewport_rooms_tracks_example =
    join_viewport_rooms_tracks server main_space main_found sid info grids quiet one (codes "g1")
      one_found one_tracked

-- A bucket that permits nothing.
abbrev closed : TokenBucket ℕ
closed = record { new_limiter = λ limit burst. burst; permits = λ tokens now. (false, tokens) }

abbrev flood : List (Call closed)
flood = (sid, codes "chat:send", 1) ∷ (sid, codes "chat:send", 2) ∷ []

run_allows-disconnections_example :
    (violations_of (run_allows closed new_rate_limiter flood) sid
        + 11 * disconnections closed sid new_rate_limiter flood
      ≡ denials closed sid new_rate_limiter flood)
    × (violations_of (run_allows closed new_rate_limiter flood) sid ≤ max_violations)
run_allows-disconnections_example = run_allows-disconnections closed flood sid
