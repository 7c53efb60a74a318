-- ===== src/Sio/ConnectionManager/Validity.antt =====
-- Which references and sessions a ConnectionManager may hold, and what Add and Remove do to them:
-- server/internal/sio/connection_manager.go.
use hwarr.Base.{
  ℕ, ◌<◌, GoString, [], ◌∷◌, true, false, none, some, if◌then◌else◌, ◌==◌, str_eq, nat_eq, str_iff,
  nat_beq_iff, ◌≡◌, refl, arith, Option-cases, Bool-cases, inl, inr, ◌⊎◌, ◌↔◌,
}
use hwarr.GoMap.{get, delete}
use hwarr.GoMap.Laws.{get-assign, get-delete}
use hwarr.Sio.ConnectionManager.{
  ConnectionInfo, Manager, new_manager, find, get_previous_session, add, end_session, remove,
  next_reconnect_count, deref, new_connection_info, is_empty,
}

-- Every connection's object is on the heap and carries the connection's socket; every session's
-- object carries the user, who is not the empty text, and is the object of a connection that is open;
-- references are below the next free one.
pub record IsValid (m : Manager) : Type 0 where
  pub connected :
      (sid : GoString) (ref : ℕ)
      → get m.connections sid ≡ some ref
      → (ref < m.next)
        × ((info : ConnectionInfo) × (get m.infos ref ≡ some info) × (info.sid ≡ sid))
  pub session_live :
      (user : GoString) (ref : ℕ)
      → get m.user_sessions user ≡ some ref
      → (info : ConnectionInfo) × (get m.infos ref ≡ some info)
        × (info.user_id ≡ user)
        × (get m.connections info.sid ≡ some ref)
  pub named : get m.user_sessions [] ≡ none

pub new_manager-IsValid : IsValid new_manager
unfolding new_manager get
new_manager-IsValid = record {
  connected = λ sid ref h. absurd (cc);
  session_live = λ u ref h. absurd (cc);
  named = refl;
}

pub is_empty_iff : (s : GoString) → (is_empty s ≡ true) ↔ (s ≡ [])
is_empty_iff [] = ground arith
is_empty_iff (c ∷ s) = ground arith

module _ (m : Manager) (sid user : GoString) (now : ℕ) where
  -- The object that `add` makes.
  abbrev pub added : ConnectionInfo
  added = new_connection_info sid user now (next_reconnect_count m user)

  pub get_connection-add :
      (s : GoString)
      → get (add m sid user now).connections s
        ≡ (if sid == s then some m.next else get m.connections s)
  unfolding add
  get_connection-add s = get-assign m.connections sid s m.next

  pub get_info-add :
      (ref : ℕ)
      → get (add m sid user now).infos ref ≡ (if m.next == ref then some added else get m.infos ref)
  unfolding add
  get_info-add ref = get-assign m.infos m.next ref added

  get_session-add :
      (u : GoString) (ref : ℕ)
      → get (add m sid user now).user_sessions u ≡ some ref
      → ((ref ≡ m.next) × (user ≡ u)) ⊎ (get m.user_sessions u ≡ some ref)
  unfolding add
  get_session-add u ref h = ground (arith, get-assign m.user_sessions user u m.next, str_iff user u)

module _ (m : Manager) (sid user : GoString) (now : ℕ) (fresh : get m.connections sid ≡ none)
    (v : IsValid m) where
  add-connected :
      (s : GoString) (ref : ℕ)
      → get (add m sid user now).connections s ≡ some ref
      → (ref < (add m sid user now).next)
        × ((info : ConnectionInfo) × (get (add m sid user now).infos ref ≡ some info)
            × (info.sid ≡ s))
  unfolding add new_connection_info
  add-connected s ref h = elim (Bool-cases (sid == s)) [
    | inl e ↦
        let r : m.next ≡ ref = ground (arith, get_connection-add m sid user now s) in
        (
          omega (arith, r),
          (
            added m sid user now,
            ground (arith, get_info-add m sid user now ref, nat_beq_iff m.next ref),
            ground (arith, str_iff sid s),
          ),
        )
    | inr e ↦
        let old = v.connected s ref (ground (arith, get_connection-add m sid user now s)) in
        (
          omega (arith, old.0),
          (
            old.1.0,
            ground (arith, old.0, old.1.1, get_info-add m sid user now ref, nat_beq_iff m.next ref),
            old.1.2,
          ),
        )
  ]

  add-session_live :
      (u : GoString) (ref : ℕ)
      → get (add m sid user now).user_sessions u ≡ some ref
      → (info : ConnectionInfo) × (get (add m sid user now).infos ref ≡ some info)
        × (info.user_id ≡ u)
        × (get (add m sid user now).connections info.sid ≡ some ref)
  unfolding add new_connection_info
  add-session_live u ref h = elim (get_session-add m sid user now u ref h) [
    | inl e ↦ (
      added m sid user now,
      ground (arith, e.0, get_info-add m sid user now ref, nat_beq_iff m.next ref),
      e.1,
      ground (arith, e.0, get_connection-add m sid user now sid, str_iff sid sid),
    )
    | inr e ↦
        let old = v.session_live u ref e in
        let live = v.connected old.0.sid ref old.3 in
        (
          old.0,
          ground (arith, live.0, old.1, get_info-add m sid user now ref, nat_beq_iff m.next ref),
          old.2,
          ground (
            arith,
            old.3,
            fresh,
            get_connection-add m sid user now old.0.sid,
            str_iff sid old.0.sid,
          ),
        )
  ]

  add-named : get (add m sid user now).user_sessions [] ≡ none
  unfolding add
  add-named = ground (arith, v.named, get-assign m.user_sessions user [] m.next, str_iff user [])

-- A new connection, for a socket that is not connected yet, keeps the manager valid.
pub add-IsValid :
    (m : Manager) (sid user : GoString) (now : ℕ)
    → get m.connections sid ≡ none
    → IsValid m
    → IsValid (add m sid user now)
add-IsValid m sid user now fresh v = record {
  connected = add-connected m sid user now fresh v;
  session_live = add-session_live m sid user now fresh v;
  named = add-named m sid user now fresh v;
}

module _ (m : Manager) (sid : GoString) (ref : ℕ) (info : ConnectionInfo) where
  -- The manager without the connection of a socket.
  abbrev pub removed : Manager
  removed = record m {
    connections = delete m.connections sid;
    user_sessions = end_session m sid info.user_id;
  }

  pub remove-found :
      get m.connections sid ≡ some ref
      → get m.infos ref ≡ some info
      → remove m sid ≡ (removed, some info)
  unfolding remove find
  remove-found c i = rw (c, remove, find, deref, i) refl

  pub get_session-remove :
      (u : GoString) (r : ℕ) → get removed.user_sessions u ≡ some r → get m.user_sessions u ≡ some r
  unfolding end_session
  get_session-remove u r h = ground (arith, get-delete m.user_sessions info.user_id u)

  session_ended :
      get m.connections sid ≡ some ref
      → get m.infos ref ≡ some info
      → IsValid m
      → (u : GoString) (r : ℕ) → get removed.user_sessions u ≡ some r
      → (other : ConnectionInfo) → get m.infos r ≡ some other
      → other.user_id ≡ u
      → get m.connections other.sid ≡ some r
      → (sid == other.sid) ≡ false
  unfolding end_session get_previous_session
  session_ended c i v u r h other o w l =
      let own = v.connected sid ref c in
      ground (
        arith,
        own.1.1,
        own.1.2,
        v.named,
        get_session-remove u r h,
        get-delete m.user_sessions info.user_id u,
        str_iff sid other.sid,
        str_iff info.sid sid,
        str_iff info.user_id u,
        is_empty_iff info.user_id,
      )

  removed-IsValid :
      get m.connections sid ≡ some ref → get m.infos ref ≡ some info → IsValid m → IsValid removed
  removed-IsValid c i v = record {
    connected = λ s r h. v.connected s r (ground (arith, get-delete m.connections sid s));
    session_live = λ u r h.
        let old = v.session_live u r (get_session-remove u r h) in
        (
          old.0,
          old.1,
          old.2,
          ground (
            arith,
            old.3,
            session_ended c i v u r h old.0 old.1 old.2 old.3,
            get-delete m.connections sid old.0.sid,
          ),
        );
    named = elim (Option-cases (get removed.user_sessions [])) [
      | inl e ↦ e
      | inr e ↦ absurd (ground (arith, get_session-remove [] e.0 e.1, v.named))
    ];
  }

pub remove-missing :
    (m : Manager) (sid : GoString) → get m.connections sid ≡ none → remove m sid ≡ (m, none)
unfolding remove find
remove-missing m sid e = rw (e, remove, find, deref) refl

-- Removing any socket keeps the manager valid: every connection's object is on the heap and
-- carries its socket, and every session belongs to an open connection of that user.
pub remove-IsValid : (m : Manager) (sid : GoString) → IsValid m → IsValid (remove m sid).0
unfolding remove find
remove-IsValid m sid v = elim (Option-cases (get m.connections sid)) [
  | inl e ↦ rw (remove-missing m sid e) v
  | inr e ↦
      let own = v.connected sid e.0 e.1 in
      rw (remove-found m sid e.0 own.1.0 e.1 own.1.1)
        (removed-IsValid m sid e.0 own.1.0 e.1 own.1.1 v)
]
