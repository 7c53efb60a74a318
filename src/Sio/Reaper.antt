-- ===== src/Sio/Reaper.antt =====
-- The pass of server/internal/sio/reaper.go over the stale connections. The disconnect callback is a
-- parameter that acts on the manager and tells whether it succeeded; `none` is a nil callback.
pub mod Reaped
use hwarr.Base.{ℕ, GoString, List, [], ◌∷◌, Bool, Option, none, some, if◌then◌else◌}
use hwarr.Sio.ConnectionManager.{Manager, remove, get_stale_sids}

abbrev pub DisconnectFunc : Type 0
DisconnectFunc = GoString → Manager → Manager × Bool

-- A failed disconnect is followed by a removal.
unfoldable pub reap_one : Option DisconnectFunc → GoString → Manager → Manager
unfolding remove
reap_one none sid m = (remove m sid).0
reap_one (some disconnect) sid m =
    let answer = disconnect sid m in if answer.1 then answer.0 else (remove answer.0 sid).0

-- The loop over the stale sockets.
unfoldable pub reap_each : Option DisconnectFunc → List GoString → Manager → Manager
unfolding reap_one
reap_each disconnect [] m = m
reap_each disconnect (sid ∷ stale) m = reap_each disconnect stale (reap_one disconnect sid m)

unfoldable pub reap : Option DisconnectFunc → Manager → ℕ → Manager
unfolding reap_each get_stale_sids
reap disconnect m now = reap_each disconnect (get_stale_sids m now) m
