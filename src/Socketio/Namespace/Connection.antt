-- ===== src/Socketio/Namespace/Connection.antt =====
-- Connecting and disconnecting: what a namespace's handlers see, and what is left.
use hwarr.Base.{
  GoString, Bool, true, not, ◌&&◌, ◌||◌, Option, none, some, ◌==◌, str_eq, str_iff, get_or, ◌≡◌,
  refl, arith, Option-cases, inl, inr, map_option, if◌then◌else◌, ap,
}
use hwarr.GoMap.{assign, delete}
use hwarr.GoMap.Laws.{get-assign, get-delete}
use hwarr.Socketio.Room.{in_room, leave_all}
use hwarr.Socketio.Room.Consistency.{IsConsistent, in_room-leave_all}
use hwarr.Socketio.Namespace.{
  Space, World, space_at, set_space, add_socket, drop_socket, accept, Handlers, handle_connect,
  handle_disconnect, has_socket,
}

module _ {A : Type 0} where
  pub space_at-set_space :
      (w : World A) (path p : GoString) (space : Space)
      → space_at (set_space w path space) p ≡ (if path == p then space else space_at w p)
  unfolding set_space
  space_at-set_space w path p space = ground (arith, get-assign w.spaces path p space)

  pub has_socket-add_socket :
      (w : World A) (path sid p s : GoString)
      → has_socket (add_socket w path sid) p s ≡ ((path == p && sid == s) || has_socket w p s)
  unfolding has_socket add_socket
  has_socket-add_socket w path sid p s =
      let space = space_at w path in
      rw (space_at-set_space w path p (record space { sockets = assign space.sockets sid true }))
        (ground (arith, get-assign space.sockets sid s true, str_iff path p))

  pub has_socket-drop_socket :
      (w : World A) (path sid p s : GoString)
      → has_socket (drop_socket w path sid) p s ≡ (not (path == p && sid == s) && has_socket w p s)
  unfolding has_socket drop_socket
  has_socket-drop_socket w path sid p s =
      let space = space_at w path in
      rw
        (space_at-set_space w path p
          (record { sockets = delete space.sockets sid; rooms = leave_all space.rooms sid }))
        (ground (arith, get-delete space.sockets sid s, str_iff path p))

  -- A socket's membership of a room of a namespace.
  abbrev pub member : World A → GoString → GoString → GoString → Bool
  member w path s r = in_room (space_at w path).rooms s r

  -- Every namespace's room manager is consistent.
  abbrev pub HasConsistentRooms : World A → Type 0
  HasConsistentRooms w = (path : GoString) → IsConsistent (space_at w path).rooms

  pub member-drop_socket :
      (w : World A) (path sid p s r : GoString)
      → HasConsistentRooms w
      → member (drop_socket w path sid) p s r ≡ (not (path == p && sid == s) && member w p s r)
  unfolding drop_socket
  member-drop_socket w path sid p s r c =
      let space = space_at w path in
      rw
        (space_at-set_space w path p
          (record { sockets = delete space.sockets sid; rooms = leave_all space.rooms sid }))
        (ground (arith, in_room-leave_all space.rooms sid s r (c path), str_iff path p))

  accept_outcome :
      (path sid : GoString) (r : World A × Option GoString)
      → let (w', failure) = accept path sid r in
        (failure ≡ none → has_socket w' path sid ≡ true)
        × ((e : GoString) → failure ≡ some e → r ≡ (w', some e))
  accept_outcome path sid (w, none) = (
    (λ _.
        ground
          (arith, has_socket-add_socket w path sid path sid, str_iff path path, str_iff sid sid)),
    (λ e h. absurd (cc)),
  )
  accept_outcome path sid (w, some e') = ((λ h. absurd (cc)), (λ e h. ground arith))

module _ {A V : Type 0} where
  -- HandleDisconnect runs the disconnect handler, if there is one, on a world in which the socket
  -- has left the namespace and all its rooms, and every other socket, room, frame and the state
  -- of the application are as they were; it holds where the rooms of every namespace are
  -- consistent.
  pub handle_disconnect_lem :
      (ns : Handlers (World A) V) (sid reason : GoString) (w : World A) (p s r : GoString)
      → HasConsistentRooms w
      → let w' = drop_socket w ns.path sid in
        (handle_disconnect ns sid reason w
          ≡ get_or (map_option (λ h. h sid reason w') ns.disconnect_handler) w')
        × (has_socket w' p s ≡ (not (ns.path == p && sid == s) && has_socket w p s))
        × (member w' p s r ≡ (not (ns.path == p && sid == s) && member w p s r))
        × (w'.sent ≡ w.sent)
        × (w'.app ≡ w.app)
  unfolding handle_disconnect
  handle_disconnect_lem ns sid reason w p s r c = (
    elim (Option-cases ns.disconnect_handler) [ inl e ↦ rw e | inr (h, e) ↦ rw e ],
    has_socket-drop_socket w ns.path sid p s,
    member-drop_socket w ns.path sid p s r c,
    unfold drop_socket in refl,
    unfold drop_socket in refl,
  )

  -- HandleConnect: with no error the socket is connected, whatever the handler did; with an error
  -- the world is the one that the handler left.
  pub handle_connect_outcome :
      (ns : Handlers (World A) V) (sid : GoString) (auth : Option GoString) (w : World A)
      → let (w', failure) = handle_connect ns sid auth w in
        (failure ≡ none → has_socket w' ns.path sid ≡ true)
        × ((e : GoString)
            → failure ≡ some e
            → map_option (λ h. h sid auth w) ns.connect_handler ≡ some (w', some e))
  unfolding handle_connect
  handle_connect_outcome ns sid auth w = elim (Option-cases ns.connect_handler) [
    | inl open_door ↦ rw open_door (
      (λ h. ground (
        arith,
        has_socket-add_socket w ns.path sid ns.path sid,
        str_iff ns.path ns.path,
        str_iff sid sid,
      )),
      (λ e h. absurd (cc)),
    )
    | inr (h, e) ↦
        let (joined, refused) = accept_outcome ns.path sid (h sid auth w) in
        rw e (joined, (λ x failed. ap some (refused x failed)))
  ]
