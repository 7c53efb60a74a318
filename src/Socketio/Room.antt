-- ===== src/Socketio/Room.antt =====
-- RoomManager of server/pkg/socketio/room.go. Each inner map is reached through one key of one
-- outer map only, so a write through it is a write to the outer map's entry. The lock makes each
-- method one step.
pub mod Membership
pub mod Consistency
pub mod History
mod Examples
use hwarr.Base.{
  GoString, Bool, false, List, [], ◌∷◌, none, some, Comparable, ◌==◌, ℕ, if◌then◌else◌, get_or,
  nat_eq, str_eq,
}
use hwarr.GoMap.{GoMap, get, delete, assign, has, keys, len}

-- map[string]struct{}
abbrev pub StringSet : Type 0
StringSet = GoMap GoString (Unit {0})

-- map[string]map[string]struct{}
abbrev pub SetIndex : Type 0
SetIndex = GoMap GoString StringSet

pub record RoomManager : Type 0 where
  pub rooms : SetIndex
  pub sids : SetIndex

unfoldable pub new_room_manager : RoomManager
new_room_manager = record { rooms = []; sids = [] }

-- if index[a] == nil { index[a] = make(...) }; index[a][b] = struct{}{}
unfoldable pub index_add : SetIndex → GoString → GoString → SetIndex
index_add index a b = assign index a (assign (get_or (get index a) []) b tt)

-- delete(index[a], b), and the entry of `a` where the set is left empty
unfoldable pub index_remove : SetIndex → GoString → GoString → SetIndex
index_remove index a b = elim (get index a) [
  | none ↦ index
  | some members ↦
      let members' = delete members b in
      if len members' == 0 then delete index a else assign index a members'
]

unfoldable pub join : RoomManager → GoString → GoString → RoomManager
unfolding index_add
join rm sid room = record { rooms = index_add rm.rooms room sid; sids = index_add rm.sids sid room }

unfoldable pub leave_no_lock : RoomManager → GoString → GoString → RoomManager
unfolding index_remove
leave_no_lock rm sid room = record {
  rooms = index_remove rm.rooms room sid;
  sids = index_remove rm.sids sid room;
}

unfoldable pub leave : RoomManager → GoString → GoString → RoomManager
unfolding leave_no_lock
leave rm sid room = leave_no_lock rm sid room

-- The loop of LeaveAll over the rooms of the socket.
unfoldable pub remove_from_each : SetIndex → GoString → List GoString → SetIndex
unfolding index_remove
remove_from_each index sid [] = index
remove_from_each index sid (room ∷ rooms) = remove_from_each (index_remove index room sid) sid rooms

unfoldable pub leave_all : RoomManager → GoString → RoomManager
unfolding remove_from_each
leave_all rm sid = elim (get rm.sids sid) [
  | none ↦ rm
  | some rooms ↦ record {
    rooms = remove_from_each rm.rooms sid (keys rooms);
    sids = delete rm.sids sid;
  }
]

unfoldable pub members : RoomManager → GoString → List GoString
members rm room = elim (get rm.rooms room) [ none ↦ [] | some s ↦ keys s ]

unfoldable pub rooms_of : RoomManager → GoString → List GoString
rooms_of rm sid = elim (get rm.sids sid) [ none ↦ [] | some s ↦ keys s ]

unfoldable pub in_room : RoomManager → GoString → GoString → Bool
in_room rm sid room = elim (get rm.rooms room) [ none ↦ false | some s ↦ has s sid ]

unfoldable pub room_count : RoomManager → GoString → ℕ
room_count rm room = len (get_or (get rm.rooms room) [])
