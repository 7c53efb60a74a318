-- ===== src/Engineio/Server/Pings/Loop.antt =====
-- The loop over the sessions in pingLoop of server/pkg/engineio/server.go.
use hwarr.Base.{
  ℕ, GoString, [], ◌∷◌, false, none, some, if◌then◌else◌, ◌==◌, str_eq, nat_eq, ◌≡◌, refl, sym, ap,
  ◌∙◌, arith, All, nat_beq_iff, str_iff, Bool-cases, inl, inr,
}
use hwarr.GoMap.{GoMap, get, Distinct}
use hwarr.Engineio.Session.{Session}
use hwarr.Engineio.Server.{Server, get_session, session_at, ping_session, ping_each, ping_tick}
use hwarr.Engineio.Server.Pings.{
  ticked, stays, IsFiled, ticked-id, ping_session-objects, ping_session-sessions,
  ping_session-config,
}

-- The objects and the configuration are the same for a key's session in both servers.
IsFiled-ping_session :
    (srv : Server) (now : ℕ) (sid : GoString) (p : ℕ) (s : Session) (entry : GoString × ℕ)
    → session_at srv p ≡ some s
    → IsFiled srv entry
    → IsFiled (ping_session srv now sid p s) entry
IsFiled-ping_session srv now sid p s (t, q) f (u, g, i) = elim (Bool-cases (p == q)) [
  | inl same ↦ (
    ticked s srv.config now,
    ping_session-objects srv now sid p s f q ∙ rw same refl,
    ground (arith, same, f, g, i, nat_beq_iff p q, ticked-id s srv.config now),
  )
  | inr other ↦ (u, ping_session-objects srv now sid p s f q ∙ rw other g, i)
]

All-IsFiled :
    (srv : Server) (now : ℕ) (sid : GoString) (p : ℕ) (s : Session) (l : GoMap GoString ℕ)
    → session_at srv p ≡ some s
    → All (IsFiled srv) l
    → All (IsFiled (ping_session srv now sid p s)) l
All-IsFiled srv now sid p s [] f h = tt
All-IsFiled srv now sid p s (entry ∷ l) f h =
    (IsFiled-ping_session srv now sid p s entry f h.0, All-IsFiled srv now sid p s l f h.1)

ping_each-cons :
    (srv : Server) (now : ℕ) (sid : GoString) (p : ℕ) (s : Session) (l : GoMap GoString ℕ)
    → session_at srv p ≡ some s
    → ping_each srv now ((sid, p) ∷ l) ≡ ping_each (ping_session srv now sid p s) now l
unfolding ping_each
ping_each-cons srv now sid p s l f = rw (f, ping_each) refl

-- A session that the rest of the loop does not come to.
abbrev IsUntouched : Server → Server → GoString → ℕ → Type 0
IsUntouched srv after sid p =
    (get_session after sid ≡ get_session srv sid) × (session_at after p ≡ session_at srv p)

other_key :
    (srv : Server) (l : GoMap GoString ℕ) (t sid : GoString) (q p : ℕ) (u s : Session)
    → session_at srv q ≡ some u
    → u.id ≡ t
    → session_at srv p ≡ some s
    → s.id ≡ sid
    → get ((t, q) ∷ l) sid ≡ none
    → ((t == sid) ≡ false) × ((q == p) ≡ false) × (get l sid ≡ none)
unfolding get
other_key srv l t sid q p u s g j f i n =
    ground (arith, g, j, f, i, n, str_iff t sid, nat_beq_iff q p)

ping_each-IsUntouched :
    (srv : Server) (now : ℕ) (l : GoMap GoString ℕ) (sid : GoString) (p : ℕ) (s : Session)
    → All (IsFiled srv) l
    → session_at srv p ≡ some s
    → s.id ≡ sid
    → get l sid ≡ none
    → IsUntouched srv (ping_each srv now l) sid p
unfolding ping_each
ping_each-IsUntouched srv now [] sid p s h f i n = (refl, refl)
ping_each-IsUntouched srv now ((t, q) ∷ l) sid p s ((u, g, j), h) f i n =
    let other = other_key srv l t sid q p u s g j f i n in
    let object = ping_session-objects srv now t q u g p in
    let rest =
      ping_each-IsUntouched (ping_session srv now t q u) now l sid p s
        (All-IsFiled srv now t q u l g h) (object ∙ rw other.1 f) i other.2 in
    rw (ping_each-cons srv now t q u l g) (
      rest.0 ∙ ping_session-sessions srv now t q u g sid j ∙ rw other.0 refl,
      rest.1 ∙ object ∙ rw other.1 refl,
    )

-- What a tick makes of a registered session.
abbrev IsTicked : Server → ℕ → GoString → ℕ → Session → Server → Type 0
IsTicked srv now sid p s after =
    (get_session after sid ≡ (if stays s srv.config now then get_session srv sid else none))
    × (session_at after p ≡ some (ticked s srv.config now))

head-IsTicked :
    (srv : Server) (now : ℕ) (l : GoMap GoString ℕ) (sid : GoString) (p : ℕ) (s : Session)
    → All (IsFiled srv) l
    → get l sid ≡ none
    → session_at srv p ≡ some s
    → s.id ≡ sid
    → IsTicked srv now sid p s (ping_each srv now ((sid, p) ∷ l))
head-IsTicked srv now l sid p s h d f i =
    let object = ping_session-objects srv now sid p s f p ∙ ground (arith, nat_beq_iff p p) in
    let rest =
      ping_each-IsUntouched (ping_session srv now sid p s) now l sid p (ticked s srv.config now)
        (All-IsFiled srv now sid p s l f h) object (ticked-id s srv.config now ∙ i) d in
    rw (ping_each-cons srv now sid p s l f) (
      rest.0 ∙ ping_session-sessions srv now sid p s f sid i ∙ ground (arith, str_iff sid sid),
      rest.1 ∙ object,
    )

IsTicked-eq :
    (srv after : Server) (now : ℕ) {t sid : GoString} {q p : ℕ} {u s : Session}
    → t ≡ sid
    → q ≡ p
    → u ≡ s
    → IsTicked srv now t q u after
    → IsTicked srv now sid p s after
IsTicked-eq srv after now e d c h = rw (sym e, sym d, sym c) h

ping_each-IsTicked :
    (srv : Server) (now : ℕ) (l : GoMap GoString ℕ) (sid : GoString) (p : ℕ) (s : Session)
    → All (IsFiled srv) l
    → Distinct l
    → session_at srv p ≡ some s
    → s.id ≡ sid
    → get l sid ≡ some p
    → IsTicked srv now sid p s (ping_each srv now l)
unfolding get
ping_each-IsTicked srv now [] sid p s h d f i n = cc
ping_each-IsTicked srv now ((t, q) ∷ l) sid p s ((u, g, j), h) (d, ds) f i n =
    elim (Bool-cases (t == sid)) [
      | inl same ↦
          let e = (str_iff t sid).0 same in
          let c : q ≡ p = ground (arith, same, n) in
          IsTicked-eq srv (ping_each srv now ((t, q) ∷ l)) now e c (ground (arith, f, g, c))
            (head-IsTicked srv now l t q u h d g j)
      | inr other ↦
          let apart : (q == p) ≡ false =
            ground (arith, other, f, g, i, j, str_iff t sid, nat_beq_iff q p) in
          let object = ping_session-objects srv now t q u g p in
          let rest =
            ping_each-IsTicked (ping_session srv now t q u) now l sid p s
              (All-IsFiled srv now t q u l g h) ds (object ∙ rw apart f) i
              (ground (arith, other, n)) in
          let config = ping_session-config srv now t q u g in
          rw (ping_each-cons srv now t q u l g) (
            rest.0
                ∙ ap
                    (λ k.
                      if stays s k now then get_session (ping_session srv now t q u) sid else none)
                    config
                ∙ ap (λ o. if stays s srv.config now then o else none)
                    (ping_session-sessions srv now t q u g sid j ∙ rw other refl),
            rest.1 ∙ ap (λ k. some (ticked s k now)) config,
          )
    ]

ping_tick-open :
    (srv : Server) (now : ℕ) → srv.done ≡ false → ping_tick srv now ≡ ping_each srv now srv.sessions
unfolding ping_tick
ping_tick-open srv now o = ground (arith, o)

pub ping_tick-IsTicked :
    (srv : Server) (now : ℕ) (sid : GoString) (p : ℕ) (s : Session)
    → srv.done ≡ false
    → All (IsFiled srv) srv.sessions
    → Distinct srv.sessions
    → session_at srv p ≡ some s
    → s.id ≡ sid
    → get_session srv sid ≡ some p
    → IsTicked srv now sid p s (ping_tick srv now)
unfolding get_session
ping_tick-IsTicked srv now sid p s o h d f i n =
    rw (ping_tick-open srv now o) (ping_each-IsTicked srv now srv.sessions sid p s h d f i n)
