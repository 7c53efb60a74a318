-- ===== src/Socketio/Namespace.antt =====
-- server/pkg/socketio/namespace.go. What is registered while the server is set up (`Handlers`) is
-- fixed while it serves; the sockets and the rooms of a namespace (`Space`) are part of the
-- `World` that handlers act on, beside the state of the application and the frames sent so far.
pub mod Connection
use hwarr.Base.{
  ℕ, GoString, List, [], Bool, true, false, Option, none, some, str_eq, get_or, Comparable,
}
use hwarr.GoMap.{GoMap, get, assign, delete, has, keys, len}
use hwarr.Socketio.Room.{RoomManager, new_room_manager, leave_all}
use hwarr.Socketio.Middleware.{Action, MiddlewareFunc, execute}

pub record Space : Type 0 where
  pub sockets : GoMap GoString Bool
  pub rooms : RoomManager

unfoldable pub new_space : Space
unfolding new_room_manager
new_space = record { sockets = []; rooms = new_room_manager }

-- `spaces` by namespace path; `sent` is what reached a client: its socket and the frame.
pub record World (A : Type 0) : Type 0 where
  pub spaces : GoMap GoString Space
  pub sent : List (GoString × GoString)
  pub app : A

module _ (W V : Type 0) where
  abbrev pub EventHandler : Type 0
  EventHandler = GoString → List GoString → Action W V

  -- A connect handler returns an error's text to reject the client.
  abbrev pub ConnectHandler : Type 0
  ConnectHandler = GoString → Option GoString → W → W × Option GoString

  abbrev pub DisconnectHandler : Type 0
  DisconnectHandler = GoString → GoString → W → W

pub record Handlers (W V : Type 0) : Type 0 where
  pub path : GoString
  pub event_handlers : GoMap GoString (EventHandler W V)
  pub connect_handler : Option (ConnectHandler W V)
  pub disconnect_handler : Option (DisconnectHandler W V)
  pub middleware : List (MiddlewareFunc W V)

module _ {A : Type 0} where
  abbrev pub space_at : World A → GoString → Space
  space_at w path = get_or (get w.spaces path) new_space

  unfoldable pub set_space : World A → GoString → Space → World A
  set_space w path space = record w { spaces = assign w.spaces path space }

  -- ns.sockets[sid] = true
  unfoldable pub add_socket : World A → GoString → GoString → World A
  unfolding set_space
  add_socket w path sid =
      let space = space_at w path in
      set_space w path (record space { sockets = assign space.sockets sid true })

  -- delete(ns.sockets, sid), then ns.Rooms.LeaveAll(sid)
  unfoldable pub drop_socket : World A → GoString → GoString → World A
  unfolding set_space leave_all
  drop_socket w path sid =
      let space = space_at w path in
      set_space w path
        (record { sockets = delete space.sockets sid; rooms = leave_all space.rooms sid })

  abbrev pub accept : GoString → GoString → World A × Option GoString → World A × Option GoString
  accept path sid (w, some e) = (w, some e)
  accept path sid (w, none) = (add_socket w path sid, none)

  -- ns.sockets[sid], false where there is no entry
  unfoldable pub has_socket : World A → GoString → GoString → Bool
  has_socket w path sid = get_or (get (space_at w path).sockets sid) false

  unfoldable pub socket_count : World A → GoString → ℕ
  socket_count w path = len (space_at w path).sockets

  unfoldable pub sockets : World A → GoString → List GoString
  sockets w path = keys (space_at w path).sockets

module _ {A V : Type 0} where
  unfoldable pub handle_connect :
      Handlers (World A) V → GoString → Option GoString → World A → World A × Option GoString
  unfolding add_socket
  handle_connect ns sid auth w = elim ns.connect_handler [
    | none ↦ accept ns.path sid (w, none)
    | some h ↦ accept ns.path sid (h sid auth w)
  ]

  unfoldable pub handle_disconnect : Handlers (World A) V → GoString → GoString → World A → World A
  unfolding drop_socket
  handle_disconnect ns sid reason w = elim ns.disconnect_handler [
    | none ↦ drop_socket w ns.path sid
    | some h ↦ h sid reason (drop_socket w ns.path sid)
  ]

  -- `none` where no handler is registered for the event: an error, and the world is as it was.
  unfoldable pub handle_event :
      Handlers (World A) V → GoString → GoString → List GoString → Option (Action (World A) V)
  unfolding execute
  handle_event ns sid event args = elim (get ns.event_handlers event) [
    | none ↦ none
    | some h ↦ some (execute ns.middleware sid event args (some (h sid args)))
  ]

  unfoldable pub has_event : Handlers (World A) V → GoString → Bool
  has_event ns event = has ns.event_handlers event

  unfoldable pub on :
      Handlers (World A) V → GoString → EventHandler (World A) V → Handlers (World A) V
  on ns event h = record ns { event_handlers = assign ns.event_handlers event h }
