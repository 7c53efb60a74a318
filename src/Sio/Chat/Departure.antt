-- ===== src/Sio/Chat/Departure.antt =====
-- What the disconnect handler leaves.
use hwarr.Base.{
  GoString, List, [], ◌∷◌, none, ◌==◌, str_eq, ◌≡◌, Result-cases, Bool-cases, inl, inr,
  if◌then◌else◌, ap, ◌∙◌, codes,
}
use hwarr.Socketio.Namespace.{World}
use hwarr.Socketio.Packet.Binary.{Node}
use hwarr.Socketio.Server.{Config}
use hwarr.Socketio.Server.Broadcast.{
  broadcast_to_namespace, broadcast_to_room, prepare, broadcast_to_namespace_lem,
}
use hwarr.Sio.ConnectionManager.{Manager, find, remove, active_count}
use hwarr.Sio.ConnectionManager.Validity.{IsValid, remove-IsValid}
use hwarr.Sio.ConnectionManager.Lookup.{find-remove}
use hwarr.Sio.Viewport.{chat_room, main_namespace}
use hwarr.Sio.Chat.{broadcast_presence, disconnected, count_payload, was_in_chat}
use hwarr.Sio.Chat.Membership.{spaces-broadcast_to_room_except}

module _ {A F : Type 0} (c : Config A F) where
  pub spaces-broadcast_to_namespace :
      (namespace event : GoString) (args : List (Node F)) (w : World A)
      → (broadcast_to_namespace c namespace event args w).0.spaces ≡ w.spaces
  spaces-broadcast_to_namespace namespace event args w =
      ap (λ x. x.0.spaces) (broadcast_to_namespace_lem c namespace event args w)
      ∙ elim (Result-cases (prepare c namespace event args)) [
        | inr (f, e) ↦ rw e
        | inl (ready, e) ↦ rw e
      ]

  spaces-broadcast_presence : (w : World A) → (broadcast_presence c w).spaces ≡ w.spaces
  unfolding broadcast_presence broadcast_to_room
  spaces-broadcast_presence w =
      spaces-broadcast_to_room_except c main_namespace chat_room [] (codes "chat:presence") _ w

  -- The disconnect handler with no cleanup, on a valid manager, leaves the sockets and rooms of
  -- every namespace as they are, takes exactly the socket out of the manager, and leaves the
  -- manager valid.
  pub disconnected_lem :
      (sid : GoString) (w : World A) (m : Manager) (s : GoString)
      → IsValid m
      → let after = disconnected c none sid (w, m) in
        (after.0.spaces ≡ w.spaces)
        × (find after.1 s ≡ (if sid == s then none else find m s))
        × IsValid after.1
  unfolding disconnected
  disconnected_lem sid w m s v =
      let counted =
        (broadcast_to_namespace c main_namespace (codes "users:count")
          (count_payload (active_count (remove m sid).0) ∷ []) w).0 in
      let quiet =
        spaces-broadcast_to_namespace main_namespace (codes "users:count")
          (count_payload (active_count (remove m sid).0) ∷ []) w in
      (
        elim (Bool-cases (was_in_chat c (find m sid))) [
          | inl e ↦ rw e (spaces-broadcast_presence counted ∙ quiet)
          | inr e ↦ rw e quiet
        ],
        (find-remove m sid s v).1,
        remove-IsValid m sid v,
      )
