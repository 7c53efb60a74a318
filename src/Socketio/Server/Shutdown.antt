-- ===== src/Socketio/Server/Shutdown.antt =====
-- DisconnectAll of server/pkg/socketio/server.go over the namespaces of a server.
use hwarr.Base.{
  GoString, [], ◌∷◌, false, some, str_eq, str_iff, if◌then◌else◌, ◌≡◌, arith, Bool-cases,
  Option-cases, inl, inr,
}
use hwarr.GoMap.{GoMap}
use hwarr.Socketio.Namespace.{
  World, Handlers, handle_disconnect, has_socket, DisconnectHandler, drop_socket,
}
use hwarr.Socketio.Namespace.Connection.{has_socket-drop_socket}
use hwarr.Socketio.Packet.Binary.{Node}
use hwarr.Socketio.Server.{Config, disconnect_each, disconnect_all}

module _ {A F : Type 0} (c : Config A F) where
  -- A handler of the application that lets a socket rest: it does not connect it again.
  abbrev pub LeavesOffline : GoString → Handlers (World A) (Node F) → Type 0
  LeavesOffline sid ns =
      (h : DisconnectHandler (World A) (Node F)) (reason p : GoString) (w : World A)
      → ns.disconnect_handler ≡ some h
      → has_socket w p sid ≡ false
      → has_socket (h sid reason w) p sid ≡ false

  disconnect_step_keeps :
      (sid reason : GoString) (ns : Handlers (World A) (Node F)) (w : World A) (p : GoString)
      → LeavesOffline sid ns
      → has_socket w p sid ≡ false
      → has_socket (if has_socket w ns.path sid then handle_disconnect ns sid reason w else w) p sid
        ≡ false
  unfolding handle_disconnect
  disconnect_step_keeps sid reason ns w p rests off =
      let dropped : has_socket (drop_socket w ns.path sid) p sid ≡ false =
        ground (arith, has_socket-drop_socket w ns.path sid p sid) in
      elim (Bool-cases (has_socket w ns.path sid)) [
        | inr e ↦ rw e off
        | inl e ↦ elim (Option-cases ns.disconnect_handler) [
          | inl n ↦ rw (e, n) dropped
          | inr (h, s) ↦ rw (e, s) (rests h reason p (drop_socket w ns.path sid) s dropped)
        ]
      ]

  disconnect_step_ends :
      (sid reason : GoString) (ns : Handlers (World A) (Node F)) (w : World A)
      → LeavesOffline sid ns
      → has_socket
          (if has_socket w ns.path sid then handle_disconnect ns sid reason w else w)
          ns.path
          sid
        ≡ false
  unfolding handle_disconnect
  disconnect_step_ends sid reason ns w rests =
      let dropped : has_socket (drop_socket w ns.path sid) ns.path sid ≡ false = ground (
        arith,
        has_socket-drop_socket w ns.path sid ns.path sid,
        str_iff ns.path ns.path,
        str_iff sid sid,
      ) in
      elim (Bool-cases (has_socket w ns.path sid)) [
        | inr e ↦ rw e e
        | inl e ↦ elim (Option-cases ns.disconnect_handler) [
          | inl n ↦ rw (e, n) dropped
          | inr (h, s) ↦ rw (e, s) (rests h reason ns.path (drop_socket w ns.path sid) s dropped)
        ]
      ]

  -- Each registered namespace satisfies `P`.
  abbrev pub AllNamespaces :
      (Handlers (World A) (Node F) → Type 0) → GoMap GoString (Handlers (World A) (Node F)) → Type 0
  AllNamespaces P [] = Unit {0}
  AllNamespaces P ((path, ns) ∷ rest) = P ns × AllNamespaces P rest

  disconnect_each_keeps :
      (sid reason : GoString) (spaces : GoMap GoString (Handlers (World A) (Node F))) (w : World A)
      (p : GoString)
      → AllNamespaces (LeavesOffline sid) spaces
      → has_socket w p sid ≡ false
      → has_socket (disconnect_each c sid reason spaces w) p sid ≡ false
  unfolding disconnect_each
  disconnect_each_keeps sid reason [] w p rests off = off
  disconnect_each_keeps sid reason ((path, ns) ∷ rest) w p rests off =
      disconnect_each_keeps sid reason rest _ p rests.1
        (disconnect_step_keeps sid reason ns w p rests.0 off)

  disconnect_each_ends :
      (sid reason : GoString) (spaces : GoMap GoString (Handlers (World A) (Node F))) (w : World A)
      → AllNamespaces (LeavesOffline sid) spaces
      → AllNamespaces
          (λ ns. has_socket (disconnect_each c sid reason spaces w) ns.path sid ≡ false)
          spaces
  unfolding disconnect_each
  disconnect_each_ends sid reason [] w rests = tt
  disconnect_each_ends sid reason ((path, ns) ∷ rest) w rests = (
    disconnect_each_keeps sid reason rest _ ns.path rests.1
        (disconnect_step_ends sid reason ns w rests.0),
    disconnect_each_ends sid reason rest _ rests.1,
  )

  -- After DisconnectAll the socket is connected to none of the server's namespaces, if no
  -- disconnect handler connects it again.
  pub disconnect_all_ends :
      (sid reason : GoString) (w : World A)
      → AllNamespaces (LeavesOffline sid) c.namespaces
      → AllNamespaces
          (λ ns. has_socket (disconnect_all c sid reason w) ns.path sid ≡ false)
          c.namespaces
  unfolding disconnect_all
  disconnect_all_ends sid reason w rests = disconnect_each_ends sid reason c.namespaces w rests
