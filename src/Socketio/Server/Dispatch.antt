-- ===== src/Socketio/Server/Dispatch.antt =====
-- What dispatching a packet does, on every branch of the packet's type.
use hwarr.Base.{
  GoString, List, true, false, Option, none, some, Result, ok, err, str_eq, ◌≡◌, ◌≢◌, refl, arith,
  Bool-cases, Option-cases, Result-cases, inl, inr, nat_beq, ◌⊎◌, codes, ap, sym, ◌∙◌,
}
use hwarr.Socketio.Namespace.{World, Handlers, handle_connect, handle_event, has_socket}
use hwarr.Socketio.Namespace.Connection.{handle_connect_outcome}
use hwarr.Socketio.Packet.{
  Packet, PacketError, packet_connect, packet_disconnect, packet_connect_error,
}
use hwarr.Socketio.Packet.Binary.{Node}
use hwarr.Socketio.Packet.Build.{
  or_root, is_event, is_ack, event_name, event_args, new_connect_packet, new_connect_error_packet,
}
use hwarr.Socketio.Server.{
  Config, DispatchResult, get_namespace, dispatch_connect, dispatch_event, dispatch_packet_full,
  answer_connect, run_event, acknowledge,
}

module _ {A F : Type 0} (c : Config A F) where
  pub new_connect_packet-type :
      (namespace sid : GoString) {p : Packet}
      → new_connect_packet c.json namespace sid ≡ ok p
      → p.type ≡ packet_connect
  unfolding new_connect_packet
  new_connect_packet-type namespace sid h = ground arith

  pub new_connect_error_packet-type :
      (namespace message : GoString) {p : Packet}
      → new_connect_error_packet c.json namespace message ≡ ok p
      → p.type ≡ packet_connect_error
  unfolding new_connect_error_packet
  new_connect_error_packet-type namespace message h = ground arith

  answer_connect_type :
      (namespace sid : GoString) (o : World A × Option GoString) {r : DispatchResult F} {p : Packet}
      → (answer_connect c namespace sid o).1 ≡ some r
      → r.response ≡ some p
      → ((o.1 ≡ none)
          × ((answer_connect c namespace sid o).0 ≡ o.0)
          × ((answer_connect c namespace sid o).2 ≡ none)
          × (p.type ≡ packet_connect))
        ⊎ (((answer_connect c namespace sid o).2 ≢ none) × (p.type ≡ packet_connect_error))
  answer_connect_type namespace sid (w, none) {r} {p} h e =
      elim (Result-cases (new_connect_packet c.json namespace sid)) [
        | inr (x, bad) ↦ absurd (ground arith)
        | inl (q, good) ↦
            let t : q.type ≡ packet_connect = new_connect_packet-type namespace sid {p = q} good in
            inl (refl, ground arith, ground arith, ground arith)
      ]
  answer_connect_type namespace sid (w, some x) {r} {p} h e =
      elim (Result-cases (new_connect_error_packet c.json namespace x)) [
        | inr (y, bad) ↦ absurd (ground arith)
        | inl (q, good) ↦
            let t : q.type ≡ packet_connect_error =
              new_connect_error_packet-type namespace x {p = q} good in
            inr (ground arith, ground arith)
      ]

  dispatch_connect_found :
      (sid namespace : GoString) (payload : Option GoString) (w : World A)
      (ns : Handlers (World A) (Node F))
      → get_namespace c namespace ≡ some ns
      → dispatch_connect c sid namespace payload w
        ≡ answer_connect c namespace sid (handle_connect ns sid payload w)
  unfolding dispatch_connect
  dispatch_connect_found sid namespace payload w ns found = rw (found, dispatch_connect)

  -- A CONNECT that is answered by a packet is accepted or refused: either there is no error, the
  -- answer is a CONNECT packet and the socket is connected to the namespace, or there is an error
  -- and the answer is a CONNECT_ERROR packet.
  pub dispatch_connect_answer :
      (sid namespace : GoString) (payload : Option GoString) (w : World A) {r : DispatchResult F}
      {p : Packet}
      → (dispatch_connect c sid namespace payload w).1 ≡ some r
      → r.response ≡ some p
      → ((ns : Handlers (World A) (Node F)) × (get_namespace c namespace ≡ some ns)
          × (has_socket (dispatch_connect c sid namespace payload w).0 ns.path sid ≡ true)
          × ((dispatch_connect c sid namespace payload w).2 ≡ none)
          × (p.type ≡ packet_connect))
        ⊎ (((dispatch_connect c sid namespace payload w).2 ≢ none)
            × (p.type ≡ packet_connect_error))
  unfolding dispatch_connect
  dispatch_connect_answer sid namespace payload w {r} {p} h e =
      elim (Option-cases (get_namespace c namespace)) [
        | inl missing ↦
            inr
              (elim (Result-cases
                (new_connect_error_packet c.json namespace (codes "Invalid namespace"))) [
                  | inr (x, bad) ↦ absurd (ground arith)
                  | inl (q, good) ↦
                      let t : q.type ≡ packet_connect_error =
                        new_connect_error_packet-type namespace (codes "Invalid namespace") {p = q}
                          good in
                      ground arith
                ])
        | inr (ns, found) ↦
            let same = dispatch_connect_found sid namespace payload w ns found in
            let o = handle_connect ns sid payload w in
            elim (answer_connect_type namespace sid o {r = r} {p = p} (sym (ap (λ x. x.1) same) ∙ h)
              e) [
                | inl (joined, world, failure, type) ↦ inl (
                  ns,
                  found,
                  ap (λ x. has_socket x ns.path sid) (ap (λ x. x.0) same ∙ world)
                      ∙ (handle_connect_outcome ns sid payload w).0 joined,
                  ap (λ x. x.2) same ∙ failure,
                  type,
                )
                | inr (failure, type) ↦ inr (rw same failure, type)
              ]
      ]

  acknowledge_result :
      (o : World A × Result GoString (Option (List (Node F)))) → (acknowledge c o).1 ≢ none
  acknowledge_result (w, ok v) h = cc
  acknowledge_result (w, err e) h = cc

  run_event_unchanged :
      (sid : GoString) (w : World A) (ns : Handlers (World A) (Node F))
      (event : Result PacketError GoString) (args : Result PacketError (List GoString))
      → (run_event c sid w ns event args).1 ≡ none
      → (run_event c sid w ns event args).0 ≡ w
  run_event_unchanged sid w ns (err e) args h = refl
  run_event_unchanged sid w ns (ok event) (err e) h = refl
  run_event_unchanged sid w ns (ok event) (ok args) h =
      elim (Option-cases (handle_event ns sid event args)) [
        | inl missing ↦ absurd (ground arith)
        | inr (action, found) ↦ absurd (acknowledge_result (action w) (ground arith))
      ]

  dispatch_event_unchanged :
      (sid : GoString) (p : Packet) (w : World A)
      → (dispatch_event c sid p w).1 ≡ none
      → (dispatch_event c sid p w).0 ≡ w
  unfolding dispatch_event
  dispatch_event_unchanged sid p w h = elim (Option-cases (get_namespace c p.namespace)) [
    | inl missing ↦ rw (missing, dispatch_event)
    | inr (ns, found) ↦
        rw (found, dispatch_event)
          (run_event_unchanged sid w ns (event_name c.json p) (event_args c.json p)
            (rw (found, dispatch_event) at h))
  ]

  no_event_unchanged :
      (sid : GoString) (p : Packet) (w : World A)
      → nat_beq p.type packet_connect ≡ false
      → nat_beq p.type packet_disconnect ≡ false
      → is_event p.type ≡ false
      → (dispatch_packet_full c sid p w).0 ≡ w
  unfolding dispatch_packet_full
  no_event_unchanged sid p w nc nd ne =
      rw (nc, nd, ne) (elim (Bool-cases (is_ack p.type)) [ inl e ↦ rw e | inr e ↦ rw e ])

  -- Only a connect, a disconnect and the handler of an event change the world: an event packet
  -- that gives no result, because its namespace, its name or its arguments are missing, leaves
  -- the world as it was, and so do acknowledgements and packet types that are not handled.
  pub dispatch_packet_full_unchanged :
      (sid : GoString) (p : Packet) (w : World A)
      → nat_beq p.type packet_connect ≡ false
      → nat_beq p.type packet_disconnect ≡ false
      → (is_event p.type ≡ false) ⊎ ((dispatch_packet_full c sid p w).1 ≡ none)
      → (dispatch_packet_full c sid p w).0 ≡ w
  unfolding dispatch_packet_full
  dispatch_packet_full_unchanged sid p w nc nd (inl ne) = no_event_unchanged sid p w nc nd ne
  dispatch_packet_full_unchanged sid p w nc nd (inr h) = elim (Bool-cases (is_event p.type)) [
    | inr ne ↦ no_event_unchanged sid p w nc nd ne
    | inl ev ↦
        rw (nc, nd, ev)
          (dispatch_event_unchanged sid (record p { namespace = or_root p.namespace }) w
            (rw (nc, nd, ev) at h))
  ]
