-- ===== src/Sio/Reaper/Reaped.antt =====
-- Which connections a pass of the reaper takes out.
use hwarr.Base.{
  contains, ℕ, GoString, List, [], ◌∷◌, true, false, Option, none, some, ◌==◌, str_eq, ◌≡◌, ◌⊎◌,
  refl, arith, inl, inr, if◌then◌else◌, ap, ◌∙◌,
}
use hwarr.Sio.ConnectionManager.{Manager, find, remove, get_stale_sids}
use hwarr.Sio.ConnectionManager.Validity.{IsValid, remove-IsValid}
use hwarr.Sio.ConnectionManager.Lookup.{find-remove}
use hwarr.Sio.Reaper.{DisconnectFunc, reap_one, reap_each, reap}

-- A callback that takes the socket out of the manager, or fails and leaves the manager.
abbrev pub Disconnects : Option DisconnectFunc → Type 0
Disconnects none = Unit {0}
Disconnects (some disconnect) =
    (sid : GoString) (m : Manager)
    → (disconnect sid m ≡ ((remove m sid).0, true)) ⊎ (disconnect sid m ≡ (m, false))

reap_one-removes :
    (d : Option DisconnectFunc) (sid : GoString) (m : Manager)
    → Disconnects d
    → reap_one d sid m ≡ (remove m sid).0
unfolding reap_one
reap_one-removes none sid m h = refl
reap_one-removes (some disconnect) sid m h = elim (h sid m) [
  | inl e ↦ rw e refl
  | inr e ↦ rw e refl
]

reap_each-nil : (d : Option DisconnectFunc) (m : Manager) → reap_each d [] m ≡ m
unfolding reap_each
reap_each-nil d m = refl

reap_each-cons :
    (d : Option DisconnectFunc) (sid : GoString) (stale : List GoString) (m : Manager)
    → Disconnects d
    → reap_each d (sid ∷ stale) m ≡ reap_each d stale (remove m sid).0
unfolding reap_each
reap_each-cons d sid stale m h = ap (reap_each d stale) (reap_one-removes d sid m h)

find-reap_each :
    (d : Option DisconnectFunc) (stale : List GoString) (m : Manager) (s : GoString)
    → Disconnects d
    → IsValid m
    → (find (reap_each d stale m) s ≡ (if contains stale s then none else find m s))
      × IsValid (reap_each d stale m)
find-reap_each d [] m s h v = rw (reap_each-nil d m) (refl, v)
find-reap_each d (sid ∷ stale) m s h v =
    let rest = find-reap_each d stale (remove m sid).0 s h (remove-IsValid m sid v) in
    rw (reap_each-cons d sid stale m h) (rest.0 ∙ after_remove (find-remove m sid s v).1, rest.1)
  where
    after_remove :
        find (remove m sid).0 s ≡ (if sid == s then none else find m s)
        → (if contains stale s then none else find (remove m sid).0 s)
          ≡ (if contains (sid ∷ stale) s then none else find m s)
    after_remove e = rw e (ground arith)

-- A pass of the reaper over a valid manager takes exactly the stale connections out of it and
-- leaves it valid, with no disconnect callback or with one that either takes its socket out of
-- the manager or fails and leaves the manager.
pub find-reap :
    (d : Option DisconnectFunc) (m : Manager) (now : ℕ) (s : GoString)
    → Disconnects d
    → IsValid m
    → (find (reap d m now) s ≡ (if contains (get_stale_sids m now) s then none else find m s))
      × IsValid (reap d m now)
unfolding reap
find-reap d m now s h v = find-reap_each d (get_stale_sids m now) m s h v
