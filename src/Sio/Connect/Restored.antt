-- ===== src/Sio/Connect/Restored.antt =====
-- The rooms of a socket that connects in server/internal/sio/handler.go.
use hwarr.Base.{
  nat_eq, get_or, ◌⊎◌, ◌↔◌, contains, ℕ, GoString, codes, List, [], ◌∷◌, Bool, false, ◌&&◌, ◌||◌,
  Option, none, some, ok, ◌==◌, str_eq, str_iff, ◌≡◌, refl, ap, ◌∙◌, arith, Option-cases,
  Bool-cases, Result-cases, inl, inr,
}
use hwarr.Base.Decimal.{negsuc}
use hwarr.GoMap.{get, has}
use hwarr.Auth.Token.{TokenService, validate}
use hwarr.Socketio.Room.{in_room}
use hwarr.Socketio.Room.Consistency.{contains-keys}
use hwarr.Socketio.Namespace.{World, Handlers, new_space}
use hwarr.Socketio.Namespace.Connection.{member}
use hwarr.Socketio.Packet.Binary.{Node}
use hwarr.Socketio.Packet.Build.{new_event_packet}
use hwarr.Socketio.Server.{Config, get_namespace}
use hwarr.Socketio.Server.Broadcast.{send_to_socket}
use hwarr.Sio.ConnectionManager.{
  Manager, ConnectionInfo, add, find, get_rooms, get_previous_session, new_connection_info,
  next_reconnect_count,
}
use hwarr.Sio.ConnectionManager.Validity.{IsValid}
use hwarr.Sio.ConnectionManager.Lookup.{find-add}
use hwarr.Sio.Viewport.{main_namespace}
use hwarr.Sio.Viewport.Tracking.{contains-get_rooms, member-enter_each, get_rooms-found}
use hwarr.Sio.Chat.Departure.{spaces-broadcast_to_namespace}
use hwarr.Sio.Connect.{previous_rooms, restore, announce_connect, handle_connect}

module _ {A F : Type 0} (c : Config A F) where
  spaces-send_to_socket :
      (namespace sid event : GoString) (args : List (Node F)) (w : World A)
      → (send_to_socket c namespace sid event args w).0.spaces ≡ w.spaces
  unfolding send_to_socket
  spaces-send_to_socket namespace sid event args w = elim (Option-cases c.send_to) [
    | inl e ↦ rw (e, send_to_socket) refl
    | inr (reach, e) ↦
        elim (Result-cases (new_event_packet c.json namespace event (negsuc 0) args)) [
          | inr (x, f) ↦ rw (e, f, send_to_socket) refl
          | inl (p, f) ↦ elim (Bool-cases (reach sid)) [
            | inl g ↦ rw (e, f, g, send_to_socket) refl
            | inr g ↦ rw (e, f, g, send_to_socket) refl
          ]
        ]
  ]

  spaces-announce_connect :
      (sid : GoString) (at : F) (rooms : List GoString) (state : World A × Manager)
      → (announce_connect c sid at rooms state).spaces ≡ state.0.spaces
  unfolding announce_connect
  spaces-announce_connect sid at rooms (w, m) =
      spaces-broadcast_to_namespace c main_namespace (codes "users:count") _ _
      ∙ spaces-send_to_socket main_namespace sid (codes "connected") _ w

  member-announce_connect :
      (sid : GoString) (at : F) (rooms : List GoString) (state : World A × Manager)
      (p s r : GoString)
      → member (announce_connect c sid at rooms state) p s r ≡ member state.0 p s r
  member-announce_connect sid at rooms state p s r =
      ap (λ spaces. in_room (get_or (get spaces p) new_space).rooms s r)
        (spaces-announce_connect sid at rooms state)

-- Whether the object of the user's session is there and holds the room.
abbrev pub is_in_session : Manager → GoString → GoString → Bool
is_in_session m user r = elim (get m.user_sessions user) [
  | none ↦ false
  | some ref ↦ elim (get m.infos ref) [ none ↦ false | some info ↦ has info.rooms r ]
]

contains-previous_rooms :
    (m : Manager) (user r : GoString)
    → IsValid m
    → contains (previous_rooms m user) r ≡ is_in_session m user r
unfolding previous_rooms get_previous_session
contains-previous_rooms m [] r v = rw (v.named, is_in_session) refl
contains-previous_rooms m (c ∷ user) r v = elim (Option-cases (get m.user_sessions (c ∷ user))) [
  | inl e ↦ rw (e, is_in_session) refl
  | inr (ref, e) ↦ elim (Option-cases (get m.infos ref)) [
    | inl f ↦ rw (e, f, is_in_session) refl
    | inr (info, f) ↦ rw (e, f, is_in_session) (contains-keys info.rooms r)
  ]
]

module _ {A F : Type 0} (c : Config A F) (ns : Handlers (World A) (Node F))
    (found : get_namespace c main_namespace ≡ some ns) where
  member-restore :
      (sid : GoString) (rooms : List GoString) (w : World A) (m : Manager) (p s r : GoString)
      → member (restore c sid rooms (w, m)).0 p s r
        ≡ ((ns.path == p && sid == s && contains rooms r) || member w p s r)
  unfolding restore
  member-restore sid [] w m p s r = ground arith
  member-restore sid (room ∷ rooms) w m p s r =
      member-enter_each c ns found sid (room ∷ rooms) w p s r

  tracked-restore :
      (sid : GoString) (rooms : List GoString) (w : World A) (m : Manager) (info : ConnectionInfo)
      (r : GoString)
      → find m sid ≡ some info
      → info.rooms ≡ []
      → contains (get_rooms (restore c sid rooms (w, m)).1 sid) r ≡ contains rooms r
  unfolding restore
  tracked-restore sid [] w m info r f e = rw (get_rooms-found m sid info f, e) refl
  tracked-restore sid (room ∷ rooms) w m info r f e =
      contains-get_rooms m sid info (room ∷ rooms) r f

  -- A socket that connects to a valid manager with a valid token is accepted, is in the rooms
  -- that the object of its user's session holds and in those where it was before, and the manager
  -- tracks exactly the rooms of that session for it, none where the user has no session; no other
  -- socket's rooms change. The code keeps a session only while its connection is there.
  pub handle_connect-restores :
      (ts : TokenService) (sid : GoString) (connected_at : F) (now clock : ℕ)
      (token user : GoString) (w : World A) (m : Manager) (p s r : GoString)
      → IsValid m
      → validate ts token clock ≡ ok user
      → let after = handle_connect c ts sid connected_at now clock (some token) (w, m) in
        (after.1 ≡ none)
        × (member after.0.0 p s r
            ≡ ((ns.path == p && sid == s && is_in_session m user r) || member w p s r))
        × (contains (get_rooms after.0.1 sid) r ≡ is_in_session m user r)
  unfolding handle_connect
  handle_connect-restores ts sid connected_at now clock token user w m p s r v ok_token =
      let rooms = previous_rooms m user in
      let same = contains-previous_rooms m user r v in
      let added = add m sid user now in
      let restored = restore c sid rooms (w, added) in
      rw ok_token (
        refl,
        member-announce_connect c sid connected_at rooms restored p s r
            ∙ member-restore sid rooms w added p s r
            ∙ ap (λ old. (ns.path == p && sid == s && old) || member w p s r) same,
        tracked-restore sid rooms w added
              (new_connection_info sid user now (next_reconnect_count m user)) r
              (find-add m sid user now sid v ∙ ground (arith, str_iff sid sid)) refl
            ∙ same,
      )

  -- A connect is accepted exactly if it has a token that is valid; one that is rejected changes
  -- nothing.
  pub handle_connect-accepts :
      (ts : TokenService) (sid : GoString) (connected_at : F) (now clock : ℕ)
      (token : Option GoString) (state : World A × Manager)
      → let after = handle_connect c ts sid connected_at now clock token state in
        ((after.1 ≡ none) ↔ (
          (text : GoString) × (user : GoString) × (token ≡ some text)
          × (validate ts text clock ≡ ok user)))
        × ((after.1 ≡ none) ⊎ (after.0 ≡ state))
  unfolding handle_connect
  handle_connect-accepts ts sid connected_at now clock none state =
      ((λ h. absurd (ground (arith, h)), λ h. absurd (ground (arith, h.2))), inr refl)
  handle_connect-accepts ts sid connected_at now clock (some token) state =
      elim (Result-cases (validate ts token clock)) [
        | inl (user, e) ↦ rw e ((λ h. (token, user, refl, e), λ h. refl), inl refl)
        | inr (x, e) ↦
            rw e (
              (λ h. absurd (ground (arith, h)), λ h. absurd (ground (arith, e, h.2, h.3))),
              inr refl,
            )
      ]
