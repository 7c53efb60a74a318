-- ===== src/Socketio/Ack/Examples.antt =====
-- A registry on which the theorems about server/pkg/socketio/ack.go are applied.
use hwarr.Base.{
  ℕ, GoString, List, [], ◌∷◌, ◌++◌, codes, true, ◌&&◌, Option, none, some, if◌then◌else◌, ◌==◌,
  str_eq, str_beq, nat_eq, ◌≡◌, refl,
}
use hwarr.GoMap.{get, assign, delete}
use hwarr.Socketio.Ack.{
  AckRegistry, PendingAck, reply, timed_out, ack_args, new_ack_registry, find_pending, register,
  resolve, expire, run_timeout,
}
use hwarr.Socketio.Ack.Timeouts.{resolve_lem, resolve_races_timeout}

abbrev ack_id : ℕ
ack_id = 1

-- A callback is a number here.
abbrev asked : AckRegistry ℕ
asked = (register new_ack_registry (codes "a") 1 true 42).0

-- Its timeout is over, and the function of the timer waits for the lock.
abbrev late : AckRegistry ℕ
late = expire asked 0

abbrev first : PendingAck ℕ
first = record { token = 0; callback = 42 }

abbrev parse : GoString → Option (List GoString)
parse s = none

asked_pending : find_pending asked (codes "a") 1 ≡ some first
unfolding find_pending register new_ack_registry get assign delete str_beq
asked_pending = refl

late_pending : find_pending late (codes "a") 1 ≡ some first
unfolding find_pending register new_ack_registry get assign delete str_beq expire
late_pending = refl

late_started : get late.started 0 ≡ some (record { sid = codes "a"; ack_id = 1; on_timeout = 42 })
unfolding register new_ack_registry get assign delete expire
late_started = refl

resolve_lem_example :
    let after = resolve parse asked (codes "a") 1 none in
    (after.1 ≡ true)
    × (find_pending after.0 (codes "a") 1 ≡ (
        if (codes "a" == codes "a") && (ack_id == ack_id)
        then none
        else find_pending asked (codes "a") 1))
    × (after.0.calls ≡ asked.calls ++ (42, reply (ack_args parse none)) ∷ [])
    × (expire after.0 0 ≡ after.0)
resolve_lem_example = resolve_lem parse asked (codes "a") 1 none first (codes "a") 1 asked_pending

resolve_races_timeout_example :
    (run_timeout (resolve parse late (codes "a") 1 none).0 0).calls
    ≡ late.calls ++ (42, reply (ack_args parse none)) ∷ (42, timed_out) ∷ []
resolve_races_timeout_example =
    resolve_races_timeout parse late (codes "a") 1 none first
      (record { sid = codes "a"; ack_id = 1; on_timeout = 42 }) late_pending late_started
