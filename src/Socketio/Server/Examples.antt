-- ===== src/Socketio/Server/Examples.antt =====
-- A server on which the theorems about server/pkg/socketio/server.go and namespace.go are applied.
use hwarr.Base.{
  contains, [], ◌∷◌, ◌++◌, codes, true, false, not, ◌&&◌, none, some, ok, err, if◌then◌else◌, ◌≡◌,
  ◌≢◌, ◌⊎◌, refl, ap, Bool-cases, str_eq, str_beq, ◌==◌, inl, inr, length, get_or, map_option,
}
use hwarr.Base.Decimal.{ℤ, negsuc}
use hwarr.GoMap.{get}
use hwarr.Socketio.Room
use hwarr.Socketio.Room.{new_room_manager, RoomManager, join}
use hwarr.Socketio.Room.Consistency.{join-IsConsistent}
use hwarr.Socketio.Room.History.{new_room_manager-IsConsistent}
use hwarr.Socketio.Namespace.{
  World, Handlers, space_at, new_space, handle_disconnect, handle_connect, has_socket, drop_socket,
}
use hwarr.Socketio.Namespace.Connection.{member, HasConsistentRooms, handle_disconnect_lem}
use hwarr.Socketio.Packet.{Packet, packet_connect, packet_connect_error}
use hwarr.Socketio.Packet.Binary.{Node}
use hwarr.Socketio.Packet.Build.{JsonTree, new_connect_packet, event_name, event_args}
use hwarr.Socketio.Server.{
  Config, DispatchResult, get_namespace, dispatch_connect, dispatch_packet_full, disconnect_all,
  dispatch_event,
}
use hwarr.Socketio.Server.Broadcast.{
  prepare, broadcast_to_room_except, deliveries, recipients, all_reached, failure_after,
  broadcast_to_room_except_lem,
}
use hwarr.Socketio.Server.RoomChange.{replace_rooms, replace_rooms_lem}
use hwarr.Socketio.Server.Dispatch.{dispatch_connect_answer}
use hwarr.Socketio.Server.Shutdown.{AllNamespaces, LeavesOffline, disconnect_all_ends}

abbrev App : Type 0
App = Unit {0}

-- The namespace "/" with a handler that remembers nothing of a socket that leaves.
abbrev main_space : Handlers (World App) (Node ℤ)
main_space = record {
  path = codes "/";
  event_handlers = [];
  connect_handler = none;
  disconnect_handler = some (λ sid reason w. w);
  middleware = [];
}

-- An encoding/json that writes one text.
abbrev json : JsonTree ℤ
json = record {
  marshal = λ t. some (codes "{}");
  unmarshal = λ s. none;
  unmarshal_array = λ s. none;
  unmarshal_string = λ s. none;
}

-- A server that reaches every socket.
abbrev server : Config App ℤ
server = record {
  namespaces = (codes "/", main_space) ∷ [];
  json = json;
  send_to = some (λ sid. true);
}

abbrev lobby : RoomManager
lobby = join new_room_manager (codes "a") (codes "lobby")

-- A socket is connected and is in a room.
abbrev busy : World App
busy = record {
  spaces = (codes "/", record { sockets = (codes "a", true) ∷ []; rooms = lobby }) ∷ [];
  sent = [];
  app = tt;
}

main_found : get_namespace server (codes "/") ≡ some main_space
unfolding get_namespace get str_beq
main_found = refl

busy-HasConsistentRooms : HasConsistentRooms busy
unfolding get new_space
busy-HasConsistentRooms path = elim (Bool-cases (codes "/" == path)) [
  | inl e ↦
      rw e (
        join-IsConsistent new_room_manager (codes "a") (codes "lobby")
          new_room_manager-IsConsistent)
  | inr e ↦ rw e new_room_manager-IsConsistent
]

broadcast_to_room_except_lem_example :
    broadcast_to_room_except server (codes "/") (codes "lobby") (codes "b") (codes "hi") [] busy
    ≡ elim (prepare server (codes "/") (codes "hi") []) [
      | err f ↦ (busy, 0, some f)
      | ok (reach, ns, frame) ↦
          let members = Room.members (space_at busy ns.path).rooms (codes "lobby") in
          (
            record busy {
              sent = busy.sent ++ deliveries frame (recipients reach (some (codes "b")) members);
            },
            length (recipients reach (some (codes "b")) members),
            failure_after none (all_reached reach (some (codes "b")) members),
          )
    ]
broadcast_to_room_except_lem_example =
    broadcast_to_room_except_lem server (codes "/") (codes "lobby") (codes "b") (codes "hi") [] busy

replace_rooms_lem_example :
    (member
        (replace_rooms server (codes "/") (codes "a") (codes "grid" ∷ []) busy).0
        (codes "/")
        (codes "a")
        (codes "lobby")
      ≡ (if codes "/" == codes "/" && codes "a" == codes "a"
          then contains (codes "grid" ∷ []) (codes "lobby")
          else member busy (codes "/") (codes "a") (codes "lobby")))
    × HasConsistentRooms (replace_rooms server (codes "/") (codes "a") (codes "grid" ∷ []) busy).0
replace_rooms_lem_example =
    replace_rooms_lem server (codes "/") (codes "a") (codes "grid" ∷ []) busy {ns = main_space}
      (codes "/") (codes "a") (codes "lobby") main_found busy-HasConsistentRooms

handle_disconnect_lem_example :
    let w' = drop_socket busy (codes "/") (codes "a") in
    (handle_disconnect main_space (codes "a") (codes "gone") busy
      ≡ get_or (map_option (λ h. h (codes "a") (codes "gone") w') main_space.disconnect_handler) w')
    × (has_socket w' (codes "/") (codes "a") ≡ (
        not (codes "/" == codes "/" && codes "a" == codes "a")
        && has_socket busy (codes "/") (codes "a")))
    × (member w' (codes "/") (codes "a") (codes "lobby") ≡ (
        not (codes "/" == codes "/" && codes "a" == codes "a")
        && member busy (codes "/") (codes "a") (codes "lobby")))
    × (w'.sent ≡ busy.sent)
    × (w'.app ≡ busy.app)
handle_disconnect_lem_example =
    handle_disconnect_lem main_space (codes "a") (codes "gone") busy (codes "/") (codes "a")
      (codes "lobby") busy-HasConsistentRooms

main_rests : AllNamespaces server (LeavesOffline server (codes "a")) server.namespaces
main_rests = ((λ h reason p w e off. rw (← ap (λ o. get_or o (λ sid reason w. w)) e) off), tt)

disconnect_all_ends_example :
    AllNamespaces server
      (λ ns.
        has_socket (disconnect_all server (codes "a") (codes "gone") busy) ns.path (codes "a")
        ≡ false)
      server.namespaces
disconnect_all_ends_example = disconnect_all_ends server (codes "a") (codes "gone") busy main_rests

-- An EVENT whose data is no array.
abbrev garbled : Packet
garbled = record {
  type = 2;
  namespace = codes "/";
  id = negsuc 0;
  payload = some (codes "{}");
  attachments = 0;
  binary_payloads = [];
}

garbled_no_result : (dispatch_packet_full server (codes "a") garbled busy).1 ≡ none
unfolding dispatch_packet_full dispatch_event get_namespace get str_beq event_name event_args
garbled_no_result = refl

abbrev welcome : Packet
welcome = record garbled { type = packet_connect }

abbrev welcomed : DispatchResult ℤ
welcomed = record { acknowledgement = none; response = some welcome }

b_welcomed : (dispatch_connect server (codes "b") (codes "/") none busy).1 ≡ some welcomed
unfolding dispatch_connect get_namespace get str_beq handle_connect new_connect_packet
b_welcomed = refl

dispatch_connect_answer_example :
    ((ns : Handlers (World App) (Node ℤ)) × (get_namespace server (codes "/") ≡ some ns)
      × (has_socket
            (dispatch_connect server (codes "b") (codes "/") none busy).0
            ns.path
            (codes "b")
          ≡ true)
      × ((dispatch_connect server (codes "b") (codes "/") none busy).2 ≡ none)
      × (welcome.type ≡ packet_connect))
    ⊎ (((dispatch_connect server (codes "b") (codes "/") none busy).2 ≢ none)
        × (welcome.type ≡ packet_connect_error))
dispatch_connect_answer_example =
    dispatch_connect_answer server (codes "b") (codes "/") none busy {r = welcomed} {p = welcome}
      b_welcomed refl
