-- ===== src/Sio/Chat.antt =====
-- The chat room: the handlers of server/internal/sio/chat_join.go and chat_leave.go, and the
-- disconnect handler of disconnect.go, which Namespace.HandleDisconnect calls after the socket has
-- left its rooms. A failed broadcast is only logged. The history's JSON objects are texts, and
-- whether one parses is a parameter.
pub mod Membership
pub mod Departure
use hwarr.Base.{
  ℕ, GoString, List, [], ◌∷◌, ◌++◌, Bool, false, codes, Option, none, some, length, if◌then◌else◌,
  str_eq,
}
use hwarr.Base.Decimal.{pos}
use hwarr.GoMap.{assign, delete, has}
use hwarr.Socketio.Namespace.{World}
use hwarr.Socketio.Packet.Binary.{Node, int, obj, field, end}
use hwarr.Socketio.Server.{Config}
use hwarr.Socketio.Server.Broadcast.{broadcast_to_namespace, broadcast_to_room}
use hwarr.Socketio.Server.RoomChange.{enter_room, leave_room, room_members}
use hwarr.Sio.ConnectionManager.{ConnectionInfo, Manager, find, update, remove, active_count}
use hwarr.Sio.Viewport.{chat_room, main_namespace}

-- What the caller is answered.
pub data ChatAnswer : Type 0 where
  unknown_sid : ChatAnswer
  joined : List GoString → ℕ → ChatAnswer
  left : ChatAnswer

-- The loop of loadChatHistory, from the last entry to the first; entries that do not parse are
-- skipped, and `none` is a missing store or its error.
unfoldable pub parsed_history : (GoString → Bool) → List GoString → List GoString
parsed_history parses [] = []
parsed_history parses (entry ∷ older) =
    parsed_history parses older ++ (if parses entry then entry ∷ [] else [])

unfoldable pub load_chat_history : (GoString → Bool) → Option (List GoString) → List GoString
unfolding parsed_history
load_chat_history parses none = []
load_chat_history parses (some raw) = parsed_history parses raw

abbrev pub count_payload : {F : Type 0} → ℕ → Node F
count_payload n = obj (field (codes "count") (int (pos n)) end)

module _ {A F : Type 0} (c : Config A F) where
  -- Presence is sent to the room's members.
  unfoldable pub broadcast_presence : World A → World A
  unfolding room_members broadcast_to_room
  broadcast_presence w =
      (broadcast_to_room c main_namespace chat_room (codes "chat:presence")
        (count_payload (length (room_members c main_namespace chat_room w)) ∷ []) w).0

  unfoldable pub chat_join :
      (GoString → Bool)
      → Option (List GoString)
      → GoString
      → World A × Manager
      → (World A × Manager) × ChatAnswer
  unfolding enter_room update broadcast_presence load_chat_history room_members
  chat_join parses raw sid (w, m) =
      let entered = (enter_room c main_namespace sid chat_room w).0 in
      let tracked =
        (update m sid (λ info. record info { rooms = assign info.rooms chat_room tt })).0 in
      elim (find m sid) [
        | none ↦ ((w, m), unknown_sid)
        | some info ↦ (
          (broadcast_presence entered, tracked),
          joined (load_chat_history parses raw)
              (length (room_members c main_namespace chat_room entered)),
        )
      ]

  unfoldable pub chat_leave : GoString → World A × Manager → (World A × Manager) × ChatAnswer
  unfolding leave_room update broadcast_presence
  chat_leave sid (w, m) = (
    (
      broadcast_presence (leave_room c main_namespace sid chat_room w),
      (update m sid (λ info. record info { rooms = delete info.rooms chat_room })).0,
    ),
    left,
  )

  abbrev pub was_in_chat : Option ConnectionInfo → Bool
  was_in_chat none = false
  was_in_chat (some info) = has info.rooms chat_room

  abbrev broadcast_users_count : ℕ → World A → World A
  broadcast_users_count n w =
      (broadcast_to_namespace c main_namespace (codes "users:count") (count_payload n ∷ []) w).0

  -- A nil cleanup is `none`.
  unfoldable pub disconnected :
      Option (GoString → World A → World A) → GoString → World A × Manager → World A × Manager
  unfolding find remove broadcast_presence active_count
  disconnected on_cleanup sid (w, m) =
      let m' = (remove m sid).0 in
      let counted = broadcast_users_count (active_count m') w in
      let told = if was_in_chat (find m sid) then broadcast_presence counted else counted in
      elim on_cleanup [ none ↦ (told, m') | some cleanup ↦ (cleanup sid told, m') ]
