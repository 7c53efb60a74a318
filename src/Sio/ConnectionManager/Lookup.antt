-- ===== src/Sio/ConnectionManager/Lookup.antt =====
-- What the lookups of a ConnectionManager give after Add and Remove.
use hwarr.Base.{
  ℕ, GoString, none, some, if◌then◌else◌, ◌==◌, str_eq, nat_eq, str_iff, nat_beq_iff, ◌≡◌, refl,
  sym, arith, Option-cases, Bool-cases, inl, inr,
}
use hwarr.GoMap.{get}
use hwarr.GoMap.Laws.{get-delete}
use hwarr.Sio.ConnectionManager.{
  ConnectionInfo, Manager, find, get_previous_session, add, end_session, remove,
  next_reconnect_count, deref, new_connection_info,
}
use hwarr.Sio.ConnectionManager.Validity.{
  get_connection-add, get_info-add, IsValid, remove-found, remove-missing, is_empty_iff, removed,
}

pub find-some :
    (m : Manager) (sid : GoString) (ref : ℕ)
    → get m.connections sid ≡ some ref
    → find m sid ≡ get m.infos ref
unfolding find
find-some m sid ref c = rw (c, find, deref) refl

pub find-none : (m : Manager) (sid : GoString) → get m.connections sid ≡ none → find m sid ≡ none
unfolding find
find-none m sid c = rw (c, find, deref) refl

-- In a valid manager, after a socket is added its lookup gives a new object, whose reconnect
-- count is the one of the user, and every other socket's lookup is what it was.
pub find-add :
    (m : Manager) (sid user : GoString) (now : ℕ) (s : GoString)
    → IsValid m
    → find (add m sid user now) s ≡ (
        if sid == s
        then some (new_connection_info sid user now (next_reconnect_count m user))
        else find m s)
find-add m sid user now s v = elim (Bool-cases (sid == s)) [
  | inl e ↦ ground (
    arith,
    get_connection-add m sid user now s,
    get_info-add m sid user now m.next,
    nat_beq_iff m.next m.next,
    find-some (add m sid user now) s m.next,
  )
  | inr e ↦ elim (Option-cases (get m.connections s)) [
    | inl c ↦ ground (
      arith,
      get_connection-add m sid user now s,
      find-none m s,
      find-none (add m sid user now) s,
    )
    | inr c ↦ ground (
      arith,
      (v.connected s c.0 c.1).0,
      get_connection-add m sid user now s,
      get_info-add m sid user now c.0,
      nat_beq_iff m.next c.0,
      find-some m s c.0,
      find-some (add m sid user now) s c.0,
    )
  ]
]

-- In a valid manager, removing a socket returns the object that its lookup gave, its lookup then
-- gives nothing, and every other socket's lookup is what it was.
pub find-remove :
    (m : Manager) (sid s : GoString)
    → IsValid m
    → ((remove m sid).1 ≡ find m sid)
      × (find (remove m sid).0 s ≡ (if sid == s then none else find m s))
find-remove m sid s v = elim (Option-cases (get m.connections sid)) [
  | inl e ↦
      rw (remove-missing m sid e)
        (sym (find-none m sid e), ground (arith, e, find-none m s, str_iff sid s))
  | inr e ↦
      let own = v.connected sid e.0 e.1 in
      rw (remove-found m sid e.0 own.1.0 e.1 own.1.1) (
        ground (arith, e.1, own.1.1, find-some m sid e.0),
        elim (Option-cases (get m.connections s)) [
          | inl c ↦ ground (
            arith,
            get-delete m.connections sid s,
            find-none m s,
            find-none (removed m sid e.0 own.1.0) s,
          )
          | inr c ↦ ground (
            arith,
            get-delete m.connections sid s,
            find-some m s c.0,
            find-none (removed m sid e.0 own.1.0) s,
            find-some (removed m sid e.0 own.1.0) s c.0,
          )
        ],
      )
]

-- In a valid manager, once the socket of a user's session is removed, the user has no session any
-- more and the next connection of the user counts no reconnection: other than the comments of
-- connection_manager.go and docs/explanation/realtime-strategy.md say, Remove does not keep the
-- session for a reconnection.
pub session_forgotten :
    (m : Manager) (user : GoString) (info : ConnectionInfo)
    → IsValid m
    → get_previous_session m user ≡ some info
    → (get_previous_session (remove m info.sid).0 user ≡ none)
      × (next_reconnect_count (remove m info.sid).0 user ≡ 0)
unfolding get_previous_session next_reconnect_count end_session
session_forgotten m user info v h = elim (Option-cases (get m.user_sessions user)) [
  | inl e ↦ absurd (ground (arith, e))
  | inr e ↦
      let live = v.session_live user e.0 e.1 in
      let same : live.0 ≡ info = ground (arith, e.1, live.1) in
      let i : get m.infos e.0 ≡ some info = ground (arith, e.1, live.1) in
      let c : get m.connections info.sid ≡ some e.0 = ground (arith, same, live.3) in
      let u : info.user_id ≡ user = ground (arith, same, live.2) in
      let gone : get (removed m info.sid e.0 info).user_sessions user ≡ none = ground (
        arith,
        get-delete m.user_sessions user user,
        v.named,
        str_iff user user,
        str_iff info.sid info.sid,
        is_empty_iff user,
      ) in
      rw (remove-found m info.sid e.0 info c i) (ground (arith, gone), ground (arith, gone))
]
