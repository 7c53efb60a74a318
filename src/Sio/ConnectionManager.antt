-- ===== src/Sio/ConnectionManager.antt =====
-- server/internal/sio/connection_manager.go. Both maps hold pointers to ConnectionInfo objects, and
-- a write to an object is seen through either: `infos` is the heap, `connections` and
-- `user_sessions` hold references. The source's float64 seconds are milliseconds divided by 1000;
-- a time is the number of milliseconds here. Logging is left out.
pub mod Validity
pub mod Lookup
pub mod Updates
pub mod Staleness
mod Examples
use hwarr.Base.{
  ℕ, ◌+◌, ◌*◌, GoString, List, [], ◌∷◌, Bool, true, false, Option, none, some, ltb, if◌then◌else◌,
  ◌==◌, str_eq, nat_eq,
}
use hwarr.GoMap.{GoMap, get, assign, delete, keys, len}
use hwarr.Socketio.Room.{StringSet}

abbrev pub heartbeat_interval_sec : ℕ
heartbeat_interval_sec = 10

abbrev pub heartbeat_timeout_sec : ℕ
heartbeat_timeout_sec = 30

abbrev pub reaper_interval_sec : ℕ
reaper_interval_sec = 15

pub record ConnectionInfo : Type 0 where
  pub sid : GoString
  pub connected_at : ℕ
  pub last_heartbeat : ℕ
  pub rooms : StringSet
  pub user_id : GoString
  pub reconnect_count : ℕ

unfoldable pub new_connection_info : GoString → GoString → ℕ → ℕ → ConnectionInfo
new_connection_info sid user_id now reconnect_count = record {
  sid = sid;
  connected_at = now;
  last_heartbeat = now;
  rooms = [];
  user_id = user_id;
  reconnect_count = reconnect_count;
}

-- `next` is the next free reference.
pub record Manager : Type 0 where
  pub infos : GoMap ℕ ConnectionInfo
  pub next : ℕ
  pub connections : GoMap GoString ℕ
  pub user_sessions : GoMap GoString ℕ

unfoldable pub new_manager : Manager
new_manager = record { infos = []; next = 0; connections = []; user_sessions = [] }

-- The object behind a reference that a map may hold.
abbrev pub deref : Manager → Option ℕ → Option ConnectionInfo
deref m none = none
deref m (some ref) = get m.infos ref

unfoldable pub active_count : Manager → ℕ
active_count m = len m.connections

unfoldable pub active_sids : Manager → List GoString
active_sids m = keys m.connections

-- Get
unfoldable pub find : Manager → GoString → Option ConnectionInfo
find m sid = deref m (get m.connections sid)

unfoldable pub get_previous_session : Manager → GoString → Option ConnectionInfo
get_previous_session m user_id = deref m (get m.user_sessions user_id)

abbrev pub is_empty : GoString → Bool
is_empty [] = true
is_empty (c ∷ s) = false

-- One more than the last session of the user, 0 for no user or no session.
unfoldable pub next_reconnect_count : Manager → GoString → ℕ
unfolding get_previous_session
next_reconnect_count m user_id =
    if is_empty user_id
    then 0
    else elim (get_previous_session m user_id) [ none ↦ 0 | some prev ↦ prev.reconnect_count + 1 ]

unfoldable pub add : Manager → GoString → GoString → ℕ → Manager
unfolding next_reconnect_count new_connection_info
add m sid user_id now = record {
  infos =
      assign m.infos m.next (new_connection_info sid user_id now (next_reconnect_count m user_id));
  next = m.next + 1;
  connections = assign m.connections sid m.next;
  user_sessions =
      if is_empty user_id then m.user_sessions else assign m.user_sessions user_id m.next;
}

-- The user's session goes if it is the one of this socket.
unfoldable pub end_session : Manager → GoString → GoString → GoMap GoString ℕ
unfolding get_previous_session
end_session m sid user_id =
    if is_empty user_id then m.user_sessions else elim (get_previous_session m user_id) [
      | none ↦ m.user_sessions
      | some current ↦
          if current.sid == sid then delete m.user_sessions user_id else m.user_sessions
    ]

-- The manager, and the removed connection's object.
unfoldable pub remove : Manager → GoString → Manager × Option ConnectionInfo
unfolding find end_session
remove m sid = elim (find m sid) [
  | none ↦ (m, none)
  | some info ↦ (
    record m {
      connections = delete m.connections sid;
      user_sessions = end_session m sid info.user_id;
    },
    some info,
  )
]

-- A write to the object of a socket; whether there is one.
unfoldable pub update : Manager → GoString → (ConnectionInfo → ConnectionInfo) → Manager × Bool
update m sid change = elim (get m.connections sid) [
  | none ↦ (m, false)
  | some ref ↦ elim (get m.infos ref) [
    | none ↦ (m, false)
    | some info ↦ (record m { infos = assign m.infos ref (change info) }, true)
  ]
]

unfoldable pub record_heartbeat : Manager → GoString → ℕ → Manager × Bool
unfolding update
record_heartbeat m sid now = update m sid (λ info. record info { last_heartbeat = now })

-- (now - info.LastHeartbeat) > HeartbeatTimeoutSec
abbrev pub is_overdue : ConnectionInfo → ℕ → Bool
is_overdue info now = ltb (info.last_heartbeat + heartbeat_timeout_sec * 1000) now

unfoldable pub is_stale : Manager → GoString → ℕ → Bool
unfolding find
is_stale m sid now = elim (find m sid) [ none ↦ true | some info ↦ is_overdue info now ]

-- The loop of GetStaleSIDs over the connections.
unfoldable pub stale_among : Manager → GoMap GoString ℕ → ℕ → List GoString
stale_among m [] now = []
stale_among m ((sid, ref) ∷ rest) now =
    let others = stale_among m rest now in
    elim (get m.infos ref) [
      | none ↦ others
      | some info ↦ if is_overdue info now then sid ∷ others else others
    ]

unfoldable pub get_stale_sids : Manager → ℕ → List GoString
unfolding stale_among
get_stale_sids m now = stale_among m m.connections now

unfoldable pub room_set : List GoString → StringSet
room_set [] = []
room_set (r ∷ rs) = assign (room_set rs) r tt

unfoldable pub set_rooms : Manager → GoString → List GoString → Manager
unfolding update room_set
set_rooms m sid rooms = (update m sid (λ info. record info { rooms = room_set rooms })).0

-- RoomNames
abbrev pub room_names : ConnectionInfo → List GoString
room_names info = keys info.rooms

unfoldable pub get_rooms : Manager → GoString → List GoString
unfolding find
get_rooms m sid = elim (find m sid) [ none ↦ [] | some info ↦ room_names info ]
