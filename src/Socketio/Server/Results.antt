-- ===== src/Socketio/Server/Results.antt =====
-- What dispatching a packet gives: an answer to a CONNECT, or values that acknowledge an event.
use hwarr.Base.{
  GoString, List, Bool, true, false, Option, none, some, Result, ok, err, ◌≡◌, ◌⊎◌, refl, arith,
  inl, inr, Option-cases, Bool-cases, nat_beq, codes, if◌then◌else◌,
}
use hwarr.Socketio.Namespace.{World, Handlers, handle_connect, handle_event}
use hwarr.Socketio.Packet.{
  Packet, PacketError, packet_connect, packet_disconnect, packet_connect_error,
}
use hwarr.Socketio.Packet.Binary.{Node}
use hwarr.Socketio.Packet.Build.{
  or_root, is_event, is_ack, event_name, event_args, new_connect_packet, new_connect_error_packet,
}
use hwarr.Socketio.Server.{
  Config, DispatchResult, Failure, Outcome, respond, answer_connect, acknowledge, run_event,
  get_namespace, dispatch_connect, dispatch_disconnect, dispatch_event, dispatch_packet_full,
  empty_result, unhandled_type,
}
use hwarr.Socketio.Server.Dispatch.{new_connect_packet-type, new_connect_error_packet-type}

abbrev pub IsConnectAnswer : Packet → Type 0
IsConnectAnswer q = (q.type ≡ packet_connect) ⊎ (q.type ≡ packet_connect_error)

module _ {A F : Type 0} (c : Config A F) where
  abbrev pub IsConnectResult : Option (DispatchResult F) → Type 0
  IsConnectResult none = Unit {0}
  IsConnectResult (some r) =
      (r.acknowledgement ≡ none) × ((q : Packet) → r.response ≡ some q → IsConnectAnswer q)

  abbrev pub IsEventResult : Option (DispatchResult F) → Type 0
  IsEventResult none = Unit {0}
  IsEventResult (some r) = r.response ≡ none

  respond-IsConnectResult :
      (w : World A) (failure : Option Failure) (x : Result PacketError Packet)
      → ((q : Packet) → x ≡ ok q → IsConnectAnswer q)
      → IsConnectResult (respond c w failure x).1
  respond-IsConnectResult w failure (ok p) h = (refl, λ q e. h q (ground (arith, e)))
  respond-IsConnectResult w failure (err e) h = tt

  answer_connect-IsConnectResult :
      (namespace sid : GoString) (o : World A × Option GoString)
      → IsConnectResult (answer_connect c namespace sid o).1
  answer_connect-IsConnectResult namespace sid (w, none) =
      respond-IsConnectResult w none (new_connect_packet c.json namespace sid)
        (λ q e. inl (new_connect_packet-type c namespace sid e))
  answer_connect-IsConnectResult namespace sid (w, some x) =
      respond-IsConnectResult w _ (new_connect_error_packet c.json namespace x)
        (λ q e. inr (new_connect_error_packet-type c namespace x e))

  dispatch_connect-IsConnectResult :
      (sid namespace : GoString) (payload : Option GoString) (w : World A)
      → IsConnectResult (dispatch_connect c sid namespace payload w).1
  unfolding dispatch_connect
  dispatch_connect-IsConnectResult sid namespace payload w =
      elim (Option-cases (get_namespace c namespace)) [
        | inl missing ↦
            rw (missing, dispatch_connect, IsConnectResult)
              (respond-IsConnectResult w _
                (new_connect_error_packet c.json namespace (codes "Invalid namespace"))
                (λ q e. inr (new_connect_error_packet-type c namespace _ e)))
        | inr (ns, found) ↦
            rw (found, dispatch_connect, IsConnectResult)
              (answer_connect-IsConnectResult namespace sid (handle_connect ns sid payload w))
      ]

  acknowledge-IsEventResult :
      (o : World A × Result GoString (Option (List (Node F)))) → IsEventResult (acknowledge c o).1
  acknowledge-IsEventResult (w, ok values) = refl
  acknowledge-IsEventResult (w, err e) = refl

  run_event-IsEventResult :
      (sid : GoString) (w : World A) (ns : Handlers (World A) (Node F))
      (event : Result PacketError GoString) (args : Result PacketError (List GoString))
      → IsEventResult (run_event c sid w ns event args).1
  run_event-IsEventResult sid w ns (err e) args = tt
  run_event-IsEventResult sid w ns (ok event) (err e) = tt
  run_event-IsEventResult sid w ns (ok event) (ok args) =
      elim (Option-cases (handle_event ns sid event args)) [
        | inl missing ↦ rw (missing, run_event, IsEventResult) refl
        | inr (action, found) ↦
            rw (found, run_event, IsEventResult) (acknowledge-IsEventResult (action w))
      ]

  dispatch_event-IsEventResult :
      (sid : GoString) (p : Packet) (w : World A) → IsEventResult (dispatch_event c sid p w).1
  unfolding dispatch_event
  dispatch_event-IsEventResult sid p w = elim (Option-cases (get_namespace c p.namespace)) [
    | inl missing ↦ rw (missing, dispatch_event, IsEventResult) tt
    | inr (ns, found) ↦
        rw (found, dispatch_event, IsEventResult)
          (run_event-IsEventResult sid w ns (event_name c.json p) (event_args c.json p))
  ]

  -- At most one of the two is in a result: an answer to a CONNECT, or values that acknowledge an
  -- event.
  abbrev pub IsSingle : Packet → Option (DispatchResult F) → Type 0
  IsSingle p r = IsConnectResult r ⊎ (IsEventResult r × (is_event p.type ≡ true))

  abbrev other : World A → Bool → Outcome c
  other w acks = if acks then (w, some empty_result, none) else (w, none, some unhandled_type)

  other-IsConnectResult : (w : World A) (acks : Bool) → IsConnectResult (other w acks).1
  other-IsConnectResult w true = (refl, λ q e. absurd (ground (arith, e)))
  other-IsConnectResult w false = tt

  dispatch_disconnect-IsConnectResult :
      (sid namespace : GoString) (w : World A)
      → IsConnectResult (dispatch_disconnect c sid namespace w).1
  unfolding dispatch_disconnect
  dispatch_disconnect-IsConnectResult sid namespace w =
      elim (Option-cases (get_namespace c namespace)) [
        | inl missing ↦
            rw (missing, dispatch_disconnect, IsConnectResult)
              (refl, λ q e. absurd (ground (arith, e)))
        | inr (ns, found) ↦
            rw (found, dispatch_disconnect, IsConnectResult)
              (refl, λ q e. absurd (ground (arith, e)))
      ]

  pub dispatch_packet_full-IsSingle :
      (sid : GoString) (p : Packet) (w : World A) → IsSingle p (dispatch_packet_full c sid p w).1
  unfolding dispatch_packet_full
  dispatch_packet_full-IsSingle sid p w = elim (Bool-cases (nat_beq p.type packet_connect)) [
    | inl e ↦ inl (
        rw (e, dispatch_packet_full)
          (dispatch_connect-IsConnectResult sid (or_root p.namespace) p.payload w))
    | inr nc ↦ elim (Bool-cases (nat_beq p.type packet_disconnect)) [
      | inl e ↦ inl (
          rw (nc, e, dispatch_packet_full)
            (dispatch_disconnect-IsConnectResult sid (or_root p.namespace) w))
      | inr nd ↦ elim (Bool-cases (is_event p.type)) [
        | inl e ↦ inr (
          rw (nc, nd, e, dispatch_packet_full)
              (dispatch_event-IsEventResult sid (record p { namespace = or_root p.namespace }) w),
          e,
        )
        | inr ne ↦
            inl (rw (nc, nd, ne, dispatch_packet_full) (other-IsConnectResult w (is_ack p.type)))
      ]
    ]
  ]
