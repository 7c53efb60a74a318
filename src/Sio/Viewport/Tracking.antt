-- ===== src/Sio/Viewport/Tracking.antt =====
-- The rooms of a socket after a change of its viewport.
use hwarr.Base.{
  contains, ℕ, GoString, List, [], ◌∷◌, true, false, not, ◌&&◌, ◌||◌, some, ◌==◌, str_eq, str_iff,
  ◌≡◌, refl, arith, Option-cases, inl, inr, if◌then◌else◌, nat_eq, nat_beq_iff, ap, ◌∙◌,
}
use hwarr.GoMap.{get, has, keys}
use hwarr.GoMap.Laws.{get-assign}
use hwarr.Socketio.Room.Consistency.{contains-keys}
use hwarr.Socketio.Namespace.{World, Handlers}
use hwarr.Socketio.Namespace.Connection.{member}
use hwarr.Socketio.Packet.Binary.{Node}
use hwarr.Socketio.Server.{Config, get_namespace}
use hwarr.Socketio.Server.RoomChange.{enter_room, leave_room, member-enter_room, member-leave_room}
use hwarr.Sio.ConnectionManager.{ConnectionInfo, Manager, find, get_rooms, set_rooms, room_set}
use hwarr.Sio.ConnectionManager.Updates.{update-found, written}
use hwarr.Sio.ConnectionManager.Lookup.{find-some, find-none}
use hwarr.Sio.Viewport.{chat_room, main_namespace, leave_each, enter_each, join_viewport_rooms}

has-room_set : (rooms : List GoString) (r : GoString) → has (room_set rooms) r ≡ contains rooms r
unfolding room_set get
has-room_set [] r = refl
has-room_set (x ∷ rooms) r =
    ground (arith, has-room_set rooms r, get-assign (room_set rooms) x r tt)

pub get_rooms-found :
    (m : Manager) (sid : GoString) (info : ConnectionInfo)
    → find m sid ≡ some info
    → get_rooms m sid ≡ keys info.rooms
unfolding get_rooms
get_rooms-found m sid info f = rw (f, get_rooms) refl

set_rooms-found :
    (m : Manager) (sid : GoString) (ref : ℕ) (info : ConnectionInfo) (rooms : List GoString)
    → get m.connections sid ≡ some ref
    → get m.infos ref ≡ some info
    → set_rooms m sid rooms ≡ written m ref info (record info { rooms = room_set rooms })
unfolding set_rooms
set_rooms-found m sid ref info rooms c i =
    ap (λ x. x.0)
      (update-found m ref info (record info { rooms = room_set rooms }) sid
        (λ old. record old { rooms = room_set rooms }) c i refl)

-- The rooms that are tracked for a connected socket after they are set.
pub contains-get_rooms :
    (m : Manager) (sid : GoString) (info : ConnectionInfo) (rooms : List GoString) (r : GoString)
    → find m sid ≡ some info
    → contains (get_rooms (set_rooms m sid rooms) sid) r ≡ contains rooms r
contains-get_rooms m sid info rooms r f = elim (Option-cases (get m.connections sid)) [
  | inl e ↦ absurd (ground (arith, e, find-none m sid))
  | inr (ref, e) ↦
      let i : get m.infos ref ≡ some info = ground (arith, e, f, find-some m sid ref) in
      let info2 : ConnectionInfo = record info { rooms = room_set rooms } in
      let m2 : Manager = written m ref info info2 in
      let found : find m2 sid ≡ some info2 =
        find-some m2 sid ref e
        ∙ ground (arith, get-assign m.infos ref ref info2, nat_beq_iff ref ref) in
      rw (set_rooms-found m sid ref info rooms e i, get_rooms-found m2 sid info2 found)
        (contains-keys (room_set rooms) r ∙ has-room_set rooms r)
]

module _ {A F : Type 0} (c : Config A F) (ns : Handlers (World A) (Node F))
    (found : get_namespace c main_namespace ≡ some ns) where
  member-leave_each :
      (sid : GoString) (rooms : List GoString) (w : World A) (p s r : GoString)
      → member (leave_each c sid rooms w) p s r
        ≡ (not (ns.path == p && sid == s && contains rooms r) && member w p s r)
  unfolding leave_each
  member-leave_each sid [] w p s r = ground arith
  member-leave_each sid (room ∷ rooms) w p s r = ground (
    arith,
    member-leave_each sid rooms (leave_room c main_namespace sid room w) p s r,
    member-leave_room c main_namespace sid room w {ns = ns} p s r found,
  )

  pub member-enter_each :
      (sid : GoString) (rooms : List GoString) (w : World A) (p s r : GoString)
      → member (enter_each c sid rooms w) p s r
        ≡ ((ns.path == p && sid == s && contains rooms r) || member w p s r)
  unfolding enter_each
  member-enter_each sid [] w p s r = ground arith
  member-enter_each sid (room ∷ rooms) w p s r = ground (
    arith,
    member-enter_each sid rooms (enter_room c main_namespace sid room w).0 p s r,
    member-enter_room c main_namespace sid room w {ns = ns} p s r found,
  )

  -- The new rooms are entered, and of the others those are left that the manager tracks.
  pub member-join_viewport_rooms :
      (sid : GoString) (new_rooms : List GoString) (w : World A) (m : Manager) (p s r : GoString)
      → member (join_viewport_rooms c sid new_rooms (w, m)).0 p s r ≡ (
          if ns.path == p && sid == s
          then contains new_rooms r || (not (contains (get_rooms m sid) r) && member w p s r)
          else member w p s r)
  unfolding join_viewport_rooms
  member-join_viewport_rooms sid new_rooms w m p s r = ground (
    arith,
    member-enter_each sid new_rooms (leave_each c sid (get_rooms m sid) w) p s r,
    member-leave_each sid (get_rooms m sid) w p s r,
  )

  in_new_rooms :
      (sid : GoString) (new_rooms : List GoString) (w : World A) (m : Manager) (r : GoString)
      → ((x : GoString) → member w ns.path sid x ≡ contains (get_rooms m sid) x)
      → member (join_viewport_rooms c sid new_rooms (w, m)).0 ns.path sid r ≡ contains new_rooms r
  in_new_rooms sid new_rooms w m r tracked = ground (
    arith,
    member-join_viewport_rooms sid new_rooms w m ns.path sid r,
    tracked r,
    str_iff ns.path ns.path,
    str_iff sid sid,
  )

  -- After a change of the viewport of a connected socket that was in exactly the rooms that the
  -- manager tracks for it, the socket is in exactly the new rooms of the namespace "/", and the
  -- manager tracks exactly those. The chat room is no exception: other than the comment of
  -- joinViewportRooms and docs/explanation/realtime-strategy.md say, a socket that is in the chat
  -- leaves it, unless it is among the new rooms.
  pub join_viewport_rooms_tracks :
      (sid : GoString) (info : ConnectionInfo) (new_rooms : List GoString) (w : World A)
      (m : Manager) (r : GoString)
      → find m sid ≡ some info
      → ((x : GoString) → member w ns.path sid x ≡ contains (get_rooms m sid) x)
      → let after = join_viewport_rooms c sid new_rooms (w, m) in
        (member after.0 ns.path sid r ≡ contains new_rooms r)
        × (member after.0 ns.path sid chat_room ≡ contains new_rooms chat_room)
        × (contains (get_rooms after.1 sid) r ≡ contains new_rooms r)
  unfolding join_viewport_rooms
  join_viewport_rooms_tracks sid info new_rooms w m r f tracked = (
    in_new_rooms sid new_rooms w m r tracked,
    in_new_rooms sid new_rooms w m chat_room tracked,
    contains-get_rooms m sid info new_rooms r f,
  )

  -- A socket for which the chat room is tracked is no longer in the chat room after a change of
  -- its viewport to rooms without it.
  pub join_viewport_rooms_leaves_chat :
      (sid : GoString) (new_rooms : List GoString) (w : World A) (m : Manager)
      → contains (get_rooms m sid) chat_room ≡ true
      → contains new_rooms chat_room ≡ false
      → member (join_viewport_rooms c sid new_rooms (w, m)).0 ns.path sid chat_room ≡ false
  join_viewport_rooms_leaves_chat sid new_rooms w m tracked others = ground (
    arith,
    member-join_viewport_rooms sid new_rooms w m ns.path sid chat_room,
    str_iff ns.path ns.path,
    str_iff sid sid,
  )
