-- ===== src/Socketio/Server/Broadcast.antt =====
-- Broadcasts of server/pkg/socketio/server.go, and whom they reach.
use hwarr.Base.{
  ℕ, ◌+◌, GoString, List, [], ◌∷◌, ◌++◌, append_assoc, append-nil, Bool, true, false, not, ◌&&◌,
  ◌||◌, Option, none, some, Result, ok, err, ◌==◌, str_eq, if◌then◌else◌, ◌≡◌, refl, arith, length,
  Bool-cases, Result-cases, inl, inr, ◌∙◌, ap,
}
use hwarr.Base.Decimal.{negsuc}
use hwarr.Socketio.Room
use hwarr.Socketio.Namespace.{World, Handlers, space_at, sockets}
use hwarr.Socketio.Packet.{encode}
use hwarr.Socketio.Packet.Binary.{Node}
use hwarr.Socketio.Packet.Build.{new_event_packet}
use hwarr.Socketio.Server.{
  Config, Failure, send_to_missing, namespace_not_found, send_failed, packet_failure, get_namespace,
}

abbrev pub is_excluded : Option GoString → GoString → Bool
is_excluded none sid = false
is_excluded (some x) sid = sid == x

-- Who gets the frame.
abbrev pub recipients : (GoString → Bool) → Option GoString → List GoString → List GoString
recipients reach exclude [] = []
recipients reach exclude (sid ∷ sids) =
    let rest = recipients reach exclude sids in
    if not (is_excluded exclude sid) && reach sid then sid ∷ rest else rest

abbrev pub all_reached : (GoString → Bool) → Option GoString → List GoString → Bool
all_reached reach exclude [] = true
all_reached reach exclude (sid ∷ sids) =
    (is_excluded exclude sid || reach sid) && all_reached reach exclude sids

abbrev pub deliveries : GoString → List GoString → List (GoString × GoString)
deliveries frame [] = []
deliveries frame (sid ∷ sids) = (sid, frame) ∷ deliveries frame sids

abbrev pub failure_after : Option Failure → Bool → Option Failure
failure_after failure true = failure
failure_after failure false = some send_failed

failure_after-failed : (b : Bool) → failure_after (some send_failed) b ≡ some send_failed
failure_after-failed true = refl
failure_after-failed false = refl

module _ {A : Type 0} where
  -- The loop over the sockets: the world, the number of sends that succeeded, and the last error.
  unfoldable pub send_each :
      (GoString → Bool)
      → GoString
      → Option GoString
      → List GoString
      → World A × ℕ × Option Failure
      → World A × ℕ × Option Failure
  send_each reach frame exclude [] state = state
  send_each reach frame exclude (sid ∷ sids) (w, sent, failure) =
      send_each reach frame exclude sids (
        if is_excluded exclude sid
        then (w, sent, failure)
        else if reach sid
        then (record w { sent = w.sent ++ (sid, frame) ∷ [] }, sent + 1, failure)
        else (w, sent, some send_failed))

  send_each_lem :
      (reach : GoString → Bool) (frame : GoString) (exclude : Option GoString)
      (sids : List GoString) (w : World A) (sent : ℕ) (failure : Option Failure)
      → send_each reach frame exclude sids (w, sent, failure) ≡ (
        record w { sent = w.sent ++ deliveries frame (recipients reach exclude sids) },
        sent + length (recipients reach exclude sids),
        failure_after failure (all_reached reach exclude sids),
      )
  unfolding send_each
  send_each_lem reach frame exclude [] w sent failure = ground (arith, append-nil w.sent)
  send_each_lem reach frame exclude (sid ∷ sids) w sent failure =
      elim (Bool-cases (is_excluded exclude sid)) [
        | inl out ↦ rw out (send_each_lem reach frame exclude sids w sent failure)
        | inr kept ↦ elim (Bool-cases (reach sid)) [
          | inr lost ↦
              rw (kept, lost)
                (send_each_lem reach frame exclude sids w sent (some send_failed)
                  ∙ ap
                      (λ f. (
                        record w {
                          sent = w.sent ++ deliveries frame (recipients reach exclude sids);
                        },
                        sent + length (recipients reach exclude sids),
                        f,
                      ))
                      (failure_after-failed (all_reached reach exclude sids)))
          | inl got ↦
              rw (kept, got)
                (send_each_lem reach frame exclude sids
                    (record w { sent = w.sent ++ (sid, frame) ∷ [] }) (sent + 1) failure
                  ∙ ground (
                    arith,
                    append_assoc w.sent ((sid, frame) ∷ [])
                        (deliveries frame (recipients reach exclude sids)),
                  ))
        ]
      ]

module _ {A F : Type 0} (c : Config A F) where
  -- The checks that every broadcast begins with, and the frame.
  unfoldable pub prepare :
      GoString
      → GoString
      → List (Node F)
      → Result Failure ((GoString → Bool) × Handlers (World A) (Node F) × GoString)
  unfolding get_namespace
  prepare namespace event args = elim c.send_to [
    | none ↦ err send_to_missing
    | some reach ↦ elim (get_namespace c namespace) [
      | none ↦ err namespace_not_found
      | some ns ↦ elim (new_event_packet c.json namespace event (negsuc 0) args) [
        | err e ↦ err (packet_failure e)
        | ok p ↦ ok (reach, ns, encode p)
      ]
    ]
  ]

  -- The world, the number of sockets that the event was sent to, and the last error.
  unfoldable pub broadcast_to_namespace :
      GoString → GoString → List (Node F) → World A → World A × ℕ × Option Failure
  unfolding prepare send_each
  broadcast_to_namespace namespace event args w = elim (prepare namespace event args) [
    | err f ↦ (w, 0, some f)
    | ok (reach, ns, frame) ↦ send_each reach frame none (sockets w ns.path) (w, 0, none)
  ]

  unfoldable pub broadcast_to_room_except :
      GoString
      → GoString
      → GoString
      → GoString
      → List (Node F)
      → World A
      → World A × ℕ × Option Failure
  unfolding prepare send_each
  broadcast_to_room_except namespace room exclude event args w =
      elim (prepare namespace event args) [
        | err f ↦ (w, 0, some f)
        | ok (reach, ns, frame) ↦
            send_each reach frame (some exclude) (Room.members (space_at w ns.path).rooms room)
              (w, 0, none)
      ]

  unfoldable pub broadcast_to_room :
      GoString → GoString → GoString → List (Node F) → World A → World A × ℕ × Option Failure
  unfolding broadcast_to_room_except
  broadcast_to_room namespace room event args w =
      broadcast_to_room_except namespace room [] event args w

  -- The namespace is not looked up: the packet goes to the socket wherever it is connected.
  unfoldable pub send_to_socket :
      GoString → GoString → GoString → List (Node F) → World A → World A × Option Failure
  send_to_socket namespace sid event args w = elim c.send_to [
    | none ↦ (w, some send_to_missing)
    | some reach ↦ elim (new_event_packet c.json namespace event (negsuc 0) args) [
      | err e ↦ (w, some (packet_failure e))
      | ok p ↦
          if reach sid
          then (record w { sent = w.sent ++ (sid, encode p) ∷ [] }, none)
          else (w, some send_failed)
    ]
  ]

  -- A broadcast to a room: where its checks pass, the frame goes once to each member of the room
  -- that is not excluded and can be reached, in the order of the members, and nothing else of the
  -- world changes; the count is the number of those sockets, and there is an error exactly if a
  -- member that is not excluded could not be reached. Where a check fails, nothing is sent.
  pub broadcast_to_room_except_lem :
      (namespace room exclude event : GoString) (args : List (Node F)) (w : World A)
      → broadcast_to_room_except namespace room exclude event args w
        ≡ elim (prepare namespace event args) [
          | err f ↦ (w, 0, some f)
          | ok (reach, ns, frame) ↦
              let members = Room.members (space_at w ns.path).rooms room in
              (
                record w {
                  sent = w.sent ++ deliveries frame (recipients reach (some exclude) members);
                },
                length (recipients reach (some exclude) members),
                failure_after none (all_reached reach (some exclude) members),
              )
        ]
  unfolding broadcast_to_room_except
  broadcast_to_room_except_lem namespace room exclude event args w =
      elim (Result-cases (prepare namespace event args)) [
        | inr (f, e) ↦ rw (e, broadcast_to_room_except)
        | inl ((reach, ns, frame), e) ↦
            let members = Room.members (space_at w ns.path).rooms room in
            rw (e, broadcast_to_room_except)
              (send_each_lem reach frame (some exclude) members w 0 none ∙ ground arith)
      ]

  -- A broadcast to a namespace: where its checks pass, the frame goes once to each socket
  -- connected to the namespace that can be reached, in their order, and nothing else of the world
  -- changes; the count is the number of those sockets, and there is an error exactly if one could
  -- not be reached. Where a check fails, nothing is sent.
  pub broadcast_to_namespace_lem :
      (namespace event : GoString) (args : List (Node F)) (w : World A)
      → broadcast_to_namespace namespace event args w ≡ elim (prepare namespace event args) [
        | err f ↦ (w, 0, some f)
        | ok (reach, ns, frame) ↦
            let online = sockets w ns.path in
            (
              record w { sent = w.sent ++ deliveries frame (recipients reach none online) },
              length (recipients reach none online),
              failure_after none (all_reached reach none online),
            )
      ]
  unfolding broadcast_to_namespace
  broadcast_to_namespace_lem namespace event args w =
      elim (Result-cases (prepare namespace event args)) [
        | inr (f, e) ↦ rw (e, broadcast_to_namespace)
        | inl ((reach, ns, frame), e) ↦
            rw (e, broadcast_to_namespace)
              (send_each_lem reach frame none (sockets w ns.path) w 0 none ∙ ground arith)
      ]
