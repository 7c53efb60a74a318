-- ===== src/Sio/ConnectionManager/Updates.antt =====
-- What the writes to a connection's object keep, and what a lookup gives afterwards.
use hwarr.Base.{
  ℕ, GoString, List, true, some, ◌==◌, str_eq, nat_eq, nat_beq_iff, ◌≡◌, refl, arith, Option-cases,
  Bool-cases, inl, inr,
}
use hwarr.GoMap.{get, assign}
use hwarr.GoMap.Laws.{get-assign}
use hwarr.Sio.ConnectionManager.{
  ConnectionInfo, Manager, update, record_heartbeat, set_rooms, room_set,
}
use hwarr.Sio.ConnectionManager.Validity.{IsValid}

module _ (m : Manager) (ref : ℕ) (info info2 : ConnectionInfo) where
  abbrev pub written : Manager
  written = record m { infos = assign m.infos ref info2 }

  written-IsValid :
      get m.infos ref ≡ some info
      → info2.sid ≡ info.sid
      → info2.user_id ≡ info.user_id
      → IsValid m
      → IsValid written
  written-IsValid i s u v = record {
    connected = λ s2 r h.
        let old = v.connected s2 r h in
        elim (Bool-cases (ref == r)) [
          | inl e ↦ (
            old.0,
            (
              info2,
              ground (arith, e, get-assign m.infos ref r info2),
              ground (arith, e, nat_beq_iff ref r, old.1.1, old.1.2),
            ),
          )
          | inr e ↦ (
            old.0,
            (old.1.0, ground (arith, e, get-assign m.infos ref r info2, old.1.1), old.1.2),
          )
        ];
    session_live = λ u2 r h.
        let old = v.session_live u2 r h in
        elim (Bool-cases (ref == r)) [
          | inl e ↦ (
            info2,
            ground (arith, e, get-assign m.infos ref r info2),
            ground (arith, e, nat_beq_iff ref r, old.1, old.2),
            ground (arith, e, nat_beq_iff ref r, old.1, old.3),
          )
          | inr e ↦ (old.0, ground (arith, e, get-assign m.infos ref r info2, old.1), old.2, old.3)
        ];
    named = v.named;
  }

  pub update-found :
      (sid : GoString) (change : ConnectionInfo → ConnectionInfo)
      → get m.connections sid ≡ some ref
      → get m.infos ref ≡ some info
      → change info ≡ info2
      → update m sid change ≡ (written, true)
  unfolding update
  update-found sid change c i e = rw (c, update, i, e) refl

-- A heartbeat or a new room set, for any socket, keeps the manager valid.
pub record_heartbeat-IsValid :
    (m : Manager) (sid : GoString) (now : ℕ) → IsValid m → IsValid (record_heartbeat m sid now).0
unfolding record_heartbeat update
record_heartbeat-IsValid m sid now v = elim (Option-cases (get m.connections sid)) [
  | inl e ↦ rw (e, record_heartbeat, update) v
  | inr e ↦
      let own = v.connected sid e.0 e.1 in
      let info2 : ConnectionInfo = record own.1.0 { last_heartbeat = now } in
      rw
        (
          record_heartbeat,
          update-found m e.0 own.1.0 info2 sid (λ info. record info { last_heartbeat = now }) e.1
              own.1.1 refl,
        )
        (written-IsValid m e.0 own.1.0 info2 own.1.1 refl refl v)
]

pub set_rooms-IsValid :
    (m : Manager) (sid : GoString) (rooms : List GoString)
    → IsValid m
    → IsValid (set_rooms m sid rooms)
unfolding set_rooms update
set_rooms-IsValid m sid rooms v = elim (Option-cases (get m.connections sid)) [
  | inl e ↦ rw (e, set_rooms, update) v
  | inr e ↦
      let own = v.connected sid e.0 e.1 in
      let info2 : ConnectionInfo = record own.1.0 { rooms = room_set rooms } in
      rw
        (
          set_rooms,
          update-found m e.0 own.1.0 info2 sid (λ info. record info { rooms = room_set rooms }) e.1
              own.1.1 refl,
        )
        (written-IsValid m e.0 own.1.0 info2 own.1.1 refl refl v)
]
