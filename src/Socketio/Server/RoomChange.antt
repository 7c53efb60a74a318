-- ===== src/Socketio/Server/RoomChange.antt =====
-- Rooms through the server, server/pkg/socketio/server.go: EnterRoom, LeaveRoom, LeaveAllRooms,
-- ReplaceRooms and the queries. `none` as an error is nil.
use hwarr.Base.{
  contains, GoString, List, [], ◌∷◌, not, ◌&&◌, ◌||◌, Option, none, some, ◌==◌, str_eq, str_iff,
  if◌then◌else◌, ◌≡◌, arith, Bool-cases, inl, inr,
}
use hwarr.Socketio.Room
use hwarr.Socketio.Room.{RoomManager, join, leave, leave_all, in_room}
use hwarr.Socketio.Room.Membership.{in_room-join, in_room-leave}
use hwarr.Socketio.Room.Consistency.{
  IsConsistent, join-IsConsistent, leave_all-IsConsistent, in_room-leave_all,
}
use hwarr.Socketio.Namespace.{World, Handlers, space_at, set_space}
use hwarr.Socketio.Namespace.Connection.{space_at-set_space, member, HasConsistentRooms}
use hwarr.Socketio.Packet.Binary.{Node}
use hwarr.Socketio.Server.{Config, Failure, namespace_not_found, get_namespace}

module _ {A : Type 0} where
  -- A write to the rooms of one namespace.
  unfoldable pub set_rooms : World A → GoString → RoomManager → World A
  unfolding set_space
  set_rooms w path rooms = set_space w path (record (space_at w path) { rooms = rooms })

-- The loop of ReplaceRooms.
unfoldable pub join_each : RoomManager → GoString → List GoString → RoomManager
join_each rm sid [] = rm
join_each rm sid (room ∷ rooms) = join_each (join rm sid room) sid rooms

module _ {A F : Type 0} (c : Config A F) where
  unfoldable pub enter_room : GoString → GoString → GoString → World A → World A × Option Failure
  unfolding get_namespace set_rooms
  enter_room namespace sid room w = elim (get_namespace c namespace) [
    | none ↦ (w, some namespace_not_found)
    | some ns ↦ (set_rooms w ns.path (join (space_at w ns.path).rooms sid room), none)
  ]

  -- No namespace is no error.
  unfoldable pub leave_room : GoString → GoString → GoString → World A → World A
  unfolding get_namespace set_rooms
  leave_room namespace sid room w = elim (get_namespace c namespace) [
    | none ↦ w
    | some ns ↦ set_rooms w ns.path (leave (space_at w ns.path).rooms sid room)
  ]

  unfoldable pub leave_all_rooms : GoString → GoString → World A → World A
  unfolding get_namespace set_rooms
  leave_all_rooms namespace sid w = elim (get_namespace c namespace) [
    | none ↦ w
    | some ns ↦ set_rooms w ns.path (leave_all (space_at w ns.path).rooms sid)
  ]

  unfoldable pub replace_rooms :
      GoString → GoString → List GoString → World A → World A × Option Failure
  unfolding get_namespace set_rooms join_each
  replace_rooms namespace sid new_rooms w = elim (get_namespace c namespace) [
    | none ↦ (w, some namespace_not_found)
    | some ns ↦ (
      set_rooms w ns.path (join_each (leave_all (space_at w ns.path).rooms sid) sid new_rooms),
      none,
    )
  ]

  unfoldable pub socket_rooms : GoString → GoString → World A → List GoString
  unfolding get_namespace
  socket_rooms namespace sid w = elim (get_namespace c namespace) [
    | none ↦ []
    | some ns ↦ Room.rooms_of (space_at w ns.path).rooms sid
  ]

  unfoldable pub room_members : GoString → GoString → World A → List GoString
  unfolding get_namespace
  room_members namespace room w = elim (get_namespace c namespace) [
    | none ↦ []
    | some ns ↦ Room.members (space_at w ns.path).rooms room
  ]

module _ {A : Type 0} where
  member-set_rooms :
      (w : World A) (path p s r : GoString) (rooms : RoomManager)
      → member (set_rooms w path rooms) p s r
        ≡ (if path == p then in_room rooms s r else member w p s r)
  unfolding set_rooms
  member-set_rooms w path p s r rooms =
      rw (space_at-set_space w path p (record (space_at w path) { rooms = rooms })) (ground arith)

  pub set_rooms-HasConsistentRooms :
      (w : World A) (path : GoString) (rooms : RoomManager)
      → HasConsistentRooms w
      → IsConsistent rooms
      → HasConsistentRooms (set_rooms w path rooms)
  unfolding set_rooms
  set_rooms-HasConsistentRooms w path rooms h k p =
      rw (space_at-set_space w path p (record (space_at w path) { rooms = rooms }))
        (elim (Bool-cases (path == p)) [ inl e ↦ rw e k | inr e ↦ rw e (h p) ])

in_room-join_each :
    (rm : RoomManager) (sid : GoString) (rooms : List GoString) (s r : GoString)
    → in_room (join_each rm sid rooms) s r ≡ ((sid == s && contains rooms r) || in_room rm s r)
unfolding join_each
in_room-join_each rm sid [] s r = ground arith
in_room-join_each rm sid (room ∷ rooms) s r =
    ground (arith, in_room-join_each (join rm sid room) sid rooms s r, in_room-join rm sid room s r)

join_each-IsConsistent :
    (rm : RoomManager) (sid : GoString) (rooms : List GoString)
    → IsConsistent rm
    → IsConsistent (join_each rm sid rooms)
unfolding join_each
join_each-IsConsistent rm sid [] h = h
join_each-IsConsistent rm sid (room ∷ rooms) h =
    join_each-IsConsistent (join rm sid room) sid rooms (join-IsConsistent rm sid room h)

module _ {A F : Type 0} (c : Config A F) where
  pub member-enter_room :
      (namespace sid room : GoString) (w : World A) {ns : Handlers (World A) (Node F)}
      (p s r : GoString)
      → get_namespace c namespace ≡ some ns
      → member (enter_room c namespace sid room w).0 p s r
        ≡ ((ns.path == p && sid == s && room == r) || member w p s r)
  unfolding enter_room
  member-enter_room namespace sid room w {ns} p s r found =
      let rooms = (space_at w ns.path).rooms in
      rw (found, enter_room, member-set_rooms w ns.path p s r (join rooms sid room))
        (ground (arith, in_room-join rooms sid room s r, str_iff ns.path p))

  pub member-leave_room :
      (namespace sid room : GoString) (w : World A) {ns : Handlers (World A) (Node F)}
      (p s r : GoString)
      → get_namespace c namespace ≡ some ns
      → member (leave_room c namespace sid room w) p s r
        ≡ (not (ns.path == p && sid == s && room == r) && member w p s r)
  unfolding leave_room
  member-leave_room namespace sid room w {ns} p s r found =
      let rooms = (space_at w ns.path).rooms in
      rw (found, leave_room, member-set_rooms w ns.path p s r (leave rooms sid room))
        (ground (arith, in_room-leave rooms sid room s r, str_iff ns.path p))

  -- After ReplaceRooms on a namespace that the server has, the socket is in exactly the new rooms
  -- of the namespace, and no other membership has changed; the rooms stay consistent.
  pub replace_rooms_lem :
      (namespace sid : GoString) (new_rooms : List GoString) (w : World A)
      {ns : Handlers (World A) (Node F)} (p s r : GoString)
      → get_namespace c namespace ≡ some ns
      → HasConsistentRooms w
      → (member (replace_rooms c namespace sid new_rooms w).0 p s r
          ≡ (if ns.path == p && sid == s then contains new_rooms r else member w p s r))
        × HasConsistentRooms (replace_rooms c namespace sid new_rooms w).0
  unfolding replace_rooms
  replace_rooms_lem namespace sid new_rooms w {ns} p s r found h =
      let rooms = (space_at w ns.path).rooms in
      let joined = join_each (leave_all rooms sid) sid new_rooms in
      rw (found, replace_rooms)
        (
          rw (member-set_rooms w ns.path p s r joined) (
              ground (
                arith,
                in_room-join_each (leave_all rooms sid) sid new_rooms s r,
                in_room-leave_all rooms sid s r (h ns.path),
                str_iff ns.path p,
              )),
          set_rooms-HasConsistentRooms w ns.path joined h (
              join_each-IsConsistent (leave_all rooms sid) sid new_rooms
                (leave_all-IsConsistent rooms sid (h ns.path))),
        )
