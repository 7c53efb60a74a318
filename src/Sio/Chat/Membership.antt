-- ===== src/Sio/Chat/Membership.antt =====
-- Who is in the chat room after each of its handlers, in the namespace and in the tracked rooms.
use hwarr.Base.{
  contains, GoString, List, [], Bool, not, ◌&&◌, ◌||◌, Option, some, ◌==◌, str_eq, ◌≡◌, refl, arith,
  Option-cases, Result-cases, inl, inr, codes, get_or, nat_eq, nat_beq_iff, ap, ◌∙◌,
}
use hwarr.GoMap.{get, assign, delete, keys}
use hwarr.GoMap.Laws.{get-assign, get-delete}
use hwarr.Socketio.Room.Consistency.{contains-keys}
use hwarr.Socketio.Room.{in_room}
use hwarr.Socketio.Namespace.{World, Handlers, new_space}
use hwarr.Socketio.Namespace.Connection.{member}
use hwarr.Socketio.Packet.Binary.{Node}
use hwarr.Socketio.Server.{Config, get_namespace}
use hwarr.Socketio.Server.Broadcast.{
  broadcast_to_room, broadcast_to_room_except, prepare, broadcast_to_room_except_lem,
}
use hwarr.Socketio.Server.RoomChange.{enter_room, leave_room, member-enter_room, member-leave_room}
use hwarr.Sio.ConnectionManager.{ConnectionInfo, Manager, find, get_rooms, update}
use hwarr.Sio.ConnectionManager.Updates.{update-found, written}
use hwarr.Sio.ConnectionManager.Lookup.{find-some, find-none}
use hwarr.Sio.Viewport.{chat_room, main_namespace}
use hwarr.Sio.Viewport.Tracking.{get_rooms-found}
use hwarr.Sio.Chat.{broadcast_presence, chat_join, chat_leave}

-- The rooms that are tracked for a connected socket after a write of them.
get_rooms-update :
    (m : Manager) (sid : GoString) (info info2 : ConnectionInfo)
    (change : ConnectionInfo → ConnectionInfo)
    → find m sid ≡ some info
    → change info ≡ info2
    → get_rooms (update m sid change).0 sid ≡ keys info2.rooms
get_rooms-update m sid info info2 change f e = elim (Option-cases (get m.connections sid)) [
  | inl no_ref ↦ absurd (ground (arith, no_ref, find-none m sid))
  | inr (ref, has_ref) ↦
      let i : get m.infos ref ≡ some info = ground (arith, has_ref, f, find-some m sid ref) in
      let m2 : Manager = written m ref info info2 in
      let found : find m2 sid ≡ some info2 =
        find-some m2 sid ref has_ref
        ∙ ground (arith, get-assign m.infos ref ref info2, nat_beq_iff ref ref) in
      rw (ap (λ x. x.0) (update-found m ref info info2 sid change has_ref i e))
        (get_rooms-found m2 sid info2 found)
]

module _ {A F : Type 0} (c : Config A F) where
  -- A broadcast leaves every namespace as it is.
  pub spaces-broadcast_to_room_except :
      (namespace room exclude event : GoString) (args : List (Node F)) (w : World A)
      → (broadcast_to_room_except c namespace room exclude event args w).0.spaces ≡ w.spaces
  spaces-broadcast_to_room_except namespace room exclude event args w =
      ap (λ x. x.0.spaces) (broadcast_to_room_except_lem c namespace room exclude event args w)
      ∙ elim (Result-cases (prepare c namespace event args)) [
        | inr (f, e) ↦ rw e
        | inl (ready, e) ↦ rw e
      ]

  pub member-broadcast_presence :
      (w : World A) (p s r : GoString) → member (broadcast_presence c w) p s r ≡ member w p s r
  unfolding broadcast_presence broadcast_to_room
  member-broadcast_presence w p s r =
      ap (λ spaces. in_room (get_or (get spaces p) new_space).rooms s r)
        (spaces-broadcast_to_room_except main_namespace chat_room [] (codes "chat:presence") _ w)

module _ {A F : Type 0} (c : Config A F) (ns : Handlers (World A) (Node F))
    (found : get_namespace c main_namespace ≡ some ns) where
  -- After a connected socket joins the chat, the memberships of every namespace are those before
  -- and the socket in the chat room of "/", and the manager tracks for it the rooms before and
  -- the chat room.
  pub chat_join_tracks :
      (parses : GoString → Bool) (raw : Option (List GoString)) (sid : GoString)
      (info : ConnectionInfo) (w : World A) (m : Manager) (p s r : GoString)
      → find m sid ≡ some info
      → let after = (chat_join c parses raw sid (w, m)).0 in
        (member after.0 p s r ≡ ((ns.path == p && sid == s && chat_room == r) || member w p s r))
        × (contains (get_rooms after.1 sid) r ≡ (chat_room == r || contains (get_rooms m sid) r))
  unfolding chat_join
  chat_join_tracks parses raw sid info w m p s r f =
      let info2 : ConnectionInfo = record info { rooms = assign info.rooms chat_room tt } in
      rw (f, chat_join)
        (
          member-broadcast_presence c (enter_room c main_namespace sid chat_room w).0 p s r
              ∙ member-enter_room c main_namespace sid chat_room w {ns = ns} p s r found,
          rw
              (
                get_rooms-update m sid info info2
                    (λ old. record old { rooms = assign old.rooms chat_room tt }) f refl,
                get_rooms-found m sid info f,
                contains-keys (assign info.rooms chat_room tt) r,
                contains-keys info.rooms r,
              )
              (ground (arith, get-assign info.rooms chat_room r tt)),
        )

  -- After a connected socket leaves the chat, the memberships of every namespace are those before
  -- without the socket in the chat room of "/", and the manager tracks for it the rooms before
  -- without the chat room.
  pub chat_leave_tracks :
      (sid : GoString) (info : ConnectionInfo) (w : World A) (m : Manager) (p s r : GoString)
      → find m sid ≡ some info
      → let after = (chat_leave c sid (w, m)).0 in
        (member after.0 p s r
          ≡ (not (ns.path == p && sid == s && chat_room == r) && member w p s r))
        × (contains (get_rooms after.1 sid) r
            ≡ (not (chat_room == r) && contains (get_rooms m sid) r))
  unfolding chat_leave
  chat_leave_tracks sid info w m p s r f =
      let info2 : ConnectionInfo = record info { rooms = delete info.rooms chat_room } in
      (
        member-broadcast_presence c (leave_room c main_namespace sid chat_room w) p s r
            ∙ member-leave_room c main_namespace sid chat_room w {ns = ns} p s r found,
        rw
            (
              get_rooms-update m sid info info2
                  (λ old. record old { rooms = delete old.rooms chat_room }) f refl,
              get_rooms-found m sid info f,
              contains-keys (delete info.rooms chat_room) r,
              contains-keys info.rooms r,
            )
            (ground (arith, get-delete info.rooms chat_room r)),
      )
