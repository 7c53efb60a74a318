-- ===== src/Sio/ConnectionManager/Staleness.antt =====
-- Which connections a ConnectionManager takes for stale.
use hwarr.Base.{
  contains, ℕ, ◌+◌, GoString, [], ◌∷◌, Bool, false, ◌&&◌, Option, none, some, if◌then◌else◌, ltb,
  ◌==◌, str_eq, nat_eq, str_iff, nat_beq_iff, ◌≡◌, refl, arith, Option-cases, inl, inr,
}
use hwarr.GoMap.{GoMap, get, has, Distinct}
use hwarr.GoMap.Laws.{get-assign}
use hwarr.Sio.ConnectionManager.{
  ConnectionInfo, Manager, find, record_heartbeat, update, is_stale, stale_among, get_stale_sids,
  is_overdue,
}
use hwarr.Sio.ConnectionManager.Validity.{IsValid}
use hwarr.Sio.ConnectionManager.Updates.{update-found, written}

-- The entries of a map all point to objects.
abbrev PointsTo : Manager → GoMap GoString ℕ → Type 0
PointsTo m [] = Unit
PointsTo m ((sid, ref) ∷ rest) =
    ((info : ConnectionInfo) × (get m.infos ref ≡ some info)) × PointsTo m rest

-- Whether a reference's object is overdue.
abbrev overdue_at : Manager → ℕ → Option ℕ → Bool
overdue_at m now none = false
overdue_at m now (some ref) = elim (get m.infos ref) [
  | none ↦ false
  | some info ↦ is_overdue info now
]

absent_stale :
    (m : Manager) (c : GoMap GoString ℕ) (now : ℕ) (s : GoString)
    → get c s ≡ none
    → contains (stale_among m c now) s ≡ false
unfolding stale_among get
absent_stale m [] now s h = refl
absent_stale m ((sid, ref) ∷ rest) now s h =
    ground (arith, absent_stale m rest now s, str_iff sid s)

contains-stale_among :
    (m : Manager) (c : GoMap GoString ℕ) (now : ℕ) (s : GoString)
    → Distinct c
    → contains (stale_among m c now) s ≡ overdue_at m now (get c s)
unfolding stale_among get
contains-stale_among m [] now s d = refl
contains-stale_among m ((sid, ref) ∷ rest) now s d =
    ground
      (arith, contains-stale_among m rest now s d.1, absent_stale m rest now sid d.0, str_iff sid s)

-- In a valid manager whose connections hold each socket once, the list of stale sockets holds a
-- socket exactly when it is connected and the single check finds it stale.
pub contains-get_stale_sids :
    (m : Manager) (now : ℕ) (s : GoString)
    → Distinct m.connections
    → IsValid m
    → contains (get_stale_sids m now) s ≡ (has m.connections s && is_stale m s now)
unfolding get_stale_sids is_stale find
contains-get_stale_sids m now s d v = elim (Option-cases (get m.connections s)) [
  | inl c ↦ ground (arith, c, contains-stale_among m m.connections now s d)
  | inr c ↦
      let own = v.connected s c.0 c.1 in
      ground (arith, c.1, own.1.1, contains-stale_among m m.connections now s d)
]

-- The check after a write of the time of another object.
is_stale-written :
    (m : Manager) (sid s : GoString) (ref : ℕ) (info : ConnectionInfo) (now later : ℕ)
    → get m.connections sid ≡ some ref
    → get m.infos ref ≡ some info
    → IsValid m
    → is_stale (written m ref info (record info { last_heartbeat = now })) s later
      ≡ (if sid == s then ltb (now + 30000) later else is_stale m s later)
unfolding is_stale find
is_stale-written m sid s ref info now later c i v = elim (Option-cases (get m.connections s)) [
  | inl e ↦ ground (arith, e, str_iff sid s)
  | inr e ↦
      let own = v.connected s e.0 e.1 in
      let mine = v.connected sid ref c in
      ground (
        arith,
        e.1,
        own.1.1,
        own.1.2,
        mine.1.1,
        mine.1.2,
        str_iff sid s,
        nat_beq_iff ref e.0,
        get-assign m.infos ref e.0 (record info { last_heartbeat = now }),
      )
]

-- In a valid manager, after a heartbeat of a connected socket at one time, the socket is stale at
-- another exactly when more than 30000 milliseconds lie between, and no other socket's staleness
-- changes; the answer of the heartbeat is whether the socket is connected.
pub is_stale-record_heartbeat :
    (m : Manager) (sid s : GoString) (now later : ℕ)
    → IsValid m
    → ((record_heartbeat m sid now).1 ≡ has m.connections sid)
      × (is_stale (record_heartbeat m sid now).0 s later ≡ (
          if (sid == s) && has m.connections sid
          then ltb (now + 30000) later
          else is_stale m s later))
unfolding record_heartbeat update
is_stale-record_heartbeat m sid s now later v = elim (Option-cases (get m.connections sid)) [
  | inl e ↦ rw (e, record_heartbeat, update) (refl, ground (arith, e))
  | inr e ↦
      let own = v.connected sid e.0 e.1 in
      let info2 : ConnectionInfo = record own.1.0 { last_heartbeat = now } in
      rw
        (
          record_heartbeat,
          update-found m e.0 own.1.0 info2 sid (λ info. record info { last_heartbeat = now }) e.1
              own.1.1 refl,
        )
        (
          ground (arith, e.1),
          ground (arith, e.1, is_stale-written m sid s e.0 own.1.0 now later e.1 own.1.1 v),
        )
]
