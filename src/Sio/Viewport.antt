-- ===== src/Sio/Viewport.antt =====
-- joinViewportRooms of server/internal/sio/subscribe_viewport.go: the rooms of the namespace "/"
-- and the rooms that the connection manager tracks, together. Its errors are only logged.
pub mod Tracking
use hwarr.Base.{GoString, List, [], ◌∷◌, codes}
use hwarr.Socketio.Namespace.{World}
use hwarr.Socketio.Server.{Config}
use hwarr.Socketio.Server.RoomChange.{enter_room, leave_room}
use hwarr.Sio.ConnectionManager.{Manager, get_rooms, set_rooms}

-- ChatRoom of disconnect.go
abbrev pub chat_room : GoString
chat_room = codes "chat:global"

abbrev pub main_namespace : GoString
main_namespace = codes "/"

module _ {A F : Type 0} (c : Config A F) where
  unfoldable pub leave_each : GoString → List GoString → World A → World A
  unfolding leave_room
  leave_each sid [] w = w
  leave_each sid (room ∷ rooms) w = leave_each sid rooms (leave_room c main_namespace sid room w)

  unfoldable pub enter_each : GoString → List GoString → World A → World A
  unfolding enter_room
  enter_each sid [] w = w
  enter_each sid (room ∷ rooms) w = enter_each sid rooms (enter_room c main_namespace sid room w).0

  unfoldable pub join_viewport_rooms :
      GoString → List GoString → World A × Manager → World A × Manager
  unfolding leave_each enter_each get_rooms set_rooms
  join_viewport_rooms sid new_rooms (w, m) =
      (enter_each sid new_rooms (leave_each sid (get_rooms m sid) w), set_rooms m sid new_rooms)
