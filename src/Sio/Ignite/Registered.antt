-- ===== src/Sio/Ignite/Registered.antt =====
-- What registerFireEvent of server/internal/sio/fire_ignite.go leaves in Redis, and what the cleanup
-- of server/internal/engine/cleanup.go makes of it.
use hwarr.Base.{
  ℕ, ◌<◌, GoString, codes, ◌++◌, Bool, true, false, ◌&&◌, Option, none, some, Result, ok, err,
  if◌then◌else◌, ◌==◌, str_eq, str_beq, ◌≡◌, refl, ◌∙◌, sym, ap, arith, str_iff,
}
use hwarr.Engine.Progression.{Engine}
use hwarr.Engine.Cleanup.{fire_key, active_grids_key, CleanupRedis, Pass, run_cleanup}
use hwarr.Engine.Cleanup.Laws.{View, CleanupLaws}
use hwarr.Engine.Cleanup.Kept.{run_cleanup-keeps}
use hwarr.Sio.Ignite.Cascade.{add_event-Is}
use hwarr.Sio.Ignite.{
  FireWriter, FireError, FireRegistration, Landing, cascade, register_fire_event, land, add_event,
  add_active, add_total, add_day, final_count, total_key, count_day, fire_max_cascade_depth,
}

-- ZADD, SADD, INCR, EXPIRE and ZINCRBY as they are documented, where they succeed, on the other
-- keys; a call that fails changes nothing.
pub record FireLaws {R : Type 0} (ops : FireWriter R) (v : View R) : Type 0 where
  pub adds :
      (r : R) (key : GoString) (score : ℕ) (member k m : GoString)
      → let after = ops.z_add r key score member in
        v.score after.0 k m
        ≡ (if after.1 && (key == k && member == m) then some score else v.score r k m)
  pub adds_lists :
      (r : R) (key : GoString) (score : ℕ) (member k m : GoString)
      → v.listed (ops.z_add r key score member).0 k m ≡ v.listed r k m
  pub lists :
      (r : R) (key grid k m : GoString)
      → let after = ops.s_add r key grid in
        v.listed after.0 k m ≡ (if after.1 && (key == k && grid == m) then true else v.listed r k m)
  pub lists_scores :
      (r : R) (key grid k m : GoString) → v.score (ops.s_add r key grid).0 k m ≡ v.score r k m
  pub incrs :
      (r : R) (key k m : GoString)
      → (key == k) ≡ false
      → (v.score (ops.incr r key).0 k m ≡ v.score r k m)
        × (v.listed (ops.incr r key).0 k m ≡ v.listed r k m)
  pub expires :
      (r : R) (key : GoString) (seconds : ℕ) (k m : GoString)
      → (key == k) ≡ false
      → (v.score (ops.expire r key seconds).0 k m ≡ v.score r k m)
        × (v.listed (ops.expire r key seconds).0 k m ≡ v.listed r k m)
  pub ranks :
      (r : R) (key : GoString) (by : ℕ) (member k m : GoString)
      → (key == k) ≡ false
      → (v.score (ops.z_incr_by r key by member).0 k m ≡ v.score r k m)
        × (v.listed (ops.z_incr_by r key by member).0 k m ≡ v.listed r k m)

-- The writes behind a cascade, one behind the other.
module _ {R : Type 0} (ops : FireWriter R) (v : View R) (laws : FireLaws ops v) (now : ℕ)
    (event : GoString) (expire_at : ℕ) (today member : GoString) (landing : Landing) where
  abbrev IsStored : R → Type 0
  IsStored r =
      (v.score r (fire_key landing.0) event ≡ some expire_at)
      × (v.listed r active_grids_key landing.0 ≡ true)

  abbrev daily : GoString
  daily = codes "stats:daily_fires:" ++ today

  abbrev ranking : GoString
  ranking = codes "stats:daily_ranking:" ++ today

  count_day-IsStored : (r : R) → IsStored r → IsStored (count_day ops r daily ranking member)
  unfolding str_beq
  count_day-IsStored r h =
      let expired = (ops.expire r daily 172800).0 in
      (
        (laws.ranks expired ranking 1 member (fire_key landing.0) event refl).0
            ∙ (laws.expires r daily 172800 (fire_key landing.0) event refl).0
            ∙ h.0,
        (laws.ranks expired ranking 1 member active_grids_key landing.0 refl).1
            ∙ (laws.expires r daily 172800 active_grids_key landing.0 refl).1
            ∙ h.1,
      )

  final_count-IsStored :
      (r : R) (o : Option ℕ) → IsStored r → IsStored (final_count ops r now landing o).0
  final_count-IsStored r none h = h
  final_count-IsStored r (some count) h = h

  add_day-IsStored :
      (d : R × Bool) → IsStored d.0 → IsStored (add_day ops now daily ranking member landing d).0
  add_day-IsStored (r, false) h = h
  add_day-IsStored (r, true) h =
      let counted = count_day ops r daily ranking member in
      final_count-IsStored counted (ops.z_count counted (fire_key landing.0) now)
        (count_day-IsStored r h)

  incr-IsStored :
      (r : R) (key : GoString)
      → (key == fire_key landing.0) ≡ false
      → (key == active_grids_key) ≡ false
      → IsStored r
      → IsStored (ops.incr r key).0
  incr-IsStored r key n m h = (
    (laws.incrs r key (fire_key landing.0) event n).0 ∙ h.0,
    (laws.incrs r key active_grids_key landing.0 m).1 ∙ h.1,
  )

  add_total-IsStored :
      (d : R × Bool) → IsStored d.0 → IsStored (add_total ops now daily ranking member landing d).0
  unfolding str_beq
  add_total-IsStored (r, false) h = h
  add_total-IsStored (r, true) h =
      add_day-IsStored (ops.incr r daily) (incr-IsStored r daily refl refl h)

  add_active-stores :
      (d : R × Bool) {reg : FireRegistration}
      → (d.1 ≡ true → IsStored d.0)
      → (add_active ops now daily ranking member landing d).1 ≡ ok reg
      → IsStored (add_active ops now daily ranking member landing d).0
  unfolding str_beq
  add_active-stores (r, false) f h = absurd (ground (arith, h))
  add_active-stores (r, true) f h =
      add_total-IsStored (ops.incr r total_key) (incr-IsStored r total_key refl refl (f refl))

  listed_then :
      (r : R)
      → v.score r (fire_key landing.0) event ≡ some expire_at
      → (ops.s_add r active_grids_key landing.0).1 ≡ true
      → IsStored (ops.s_add r active_grids_key landing.0).0
  listed_then r s e = (
    laws.lists_scores r active_grids_key landing.0 (fire_key landing.0) event ∙ s,
    laws.lists r active_grids_key landing.0 active_grids_key landing.0
        ∙ ground (arith, e, str_iff landing.0 landing.0, str_iff active_grids_key active_grids_key),
  )

  add_event-stores :
      (d : R × Bool) {reg : FireRegistration}
      → (d.1 ≡ true → v.score d.0 (fire_key landing.0) event ≡ some expire_at)
      → (add_event ops now daily ranking member landing d).1 ≡ ok reg
      → IsStored (add_event ops now daily ranking member landing d).0
  add_event-stores (r, false) f h = absurd (ground (arith, h))
  add_event-stores (r, true) f h =
      add_active-stores (ops.s_add r active_grids_key landing.0) (listed_then r (f refl)) h

  added :
      (r : R)
      → (ops.z_add r (fire_key landing.0) expire_at event).1 ≡ true
      → v.score (ops.z_add r (fire_key landing.0) expire_at event).0 (fire_key landing.0) event
        ≡ some expire_at
  added r e =
      laws.adds r (fire_key landing.0) expire_at event (fire_key landing.0) event
      ∙ ground (arith, e, str_iff event event, str_iff (fire_key landing.0) (fire_key landing.0))

moved :
    {R : Type 0} (v : View R) {r : R} (event : GoString) (expire_at : ℕ) {a b : GoString}
    → a ≡ b
    → (v.score r (fire_key a) event ≡ some expire_at) × (v.listed r active_grids_key a ≡ true)
    → (v.score r (fire_key b) event ≡ some expire_at) × (v.listed r active_grids_key b ≡ true)
moved v event expire_at e h = rw (sym e) h

-- A fire that is registered is in the set of the grid where it landed, with the time when it
-- expires, and the grid is listed as active.
pub register_fire_event-stores :
    {R : Type 0} (ops : FireWriter R) (v : View R)
    → FireLaws ops v
    → (r : R) (now : ℕ) (draws : ℕ → ℕ) (grid event : GoString) (expire_at : ℕ) (today : GoString)
      (member_of : GoString → GoString) {reg : FireRegistration}
    → let result = register_fire_event ops r now draws grid event expire_at today member_of in
      result.1 ≡ ok reg
      → (v.score result.0 (fire_key reg.grid_id) event ≡ some expire_at)
        × (v.listed result.0 active_grids_key reg.grid_id ≡ true)
unfolding register_fire_event
register_fire_event-stores ops v laws r now draws grid event expire_at today member_of {reg} h =
    go (cascade ops r now draws fire_max_cascade_depth grid) h
  where
    go :
        (l : Result FireError Landing)
        → (land ops r now event expire_at today member_of l).1 ≡ ok reg
        → IsStored ops v laws now event expire_at today
            (member_of reg.grid_id)
            (reg.grid_id, reg.spread_path)
            (land ops r now event expire_at today member_of l).0
    go (err e) k = absurd (ground (arith, k))
    go (ok landing) k =
        let m = member_of landing.0 in
        let added_event = ops.z_add r (fire_key landing.0) expire_at event in
        let stored =
          add_event-stores ops v laws now event expire_at today m landing added_event
            (added ops v laws now event expire_at today m landing r) k in
        moved v event expire_at (ap (λ x. x.0) (add_event-Is ops now _ _ m landing added_event k))
          stored

-- A fire that is registered, with a time of expiry after that of a later pass of the cleanup, is
-- in its grid's set and its grid is listed as active when that pass is over, whatever calls of
-- Redis fail in the pass, where Redis does in both what it is documented to do.
pub registered_survives_cleanup :
    {R : Type 0} (ops : FireWriter R) (cleanup : CleanupRedis R) (v : View R)
    → FireLaws ops v
    → CleanupLaws cleanup v
    → (r : R) (now : ℕ) (draws : ℕ → ℕ) (grid event : GoString) (expire_at : ℕ) (today : GoString)
      (member_of : GoString → GoString) {reg : FireRegistration} (later : ℕ)
      (tracker : Option Engine) {p : Pass R}
    → let result = register_fire_event ops r now draws grid event expire_at today member_of in
      result.1 ≡ ok reg
      → later < expire_at
      → run_cleanup cleanup result.0 tracker later ≡ some p
      → (v.score p.redis (fire_key reg.grid_id) event ≡ some expire_at)
        × (v.listed p.redis active_grids_key reg.grid_id ≡ true)
registered_survives_cleanup ops cleanup v laws cleanup_laws r now draws grid event expire_at today
      member_of {reg} later tracker h alive e =
    let stored =
      register_fire_event-stores ops v laws r now draws grid event expire_at today member_of h in
    run_cleanup-keeps cleanup v cleanup_laws reg.grid_id event expire_at later alive
      (register_fire_event ops r now draws grid event expire_at today member_of).0 tracker e
      stored.0 stored.1
