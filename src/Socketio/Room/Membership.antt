-- ===== src/Socketio/Room/Membership.antt =====
-- An index of sets as a relation, and what `join`, `leave` and the queries do to it.
use hwarr.Base.{
  GoString, Bool, false, not, ◌&&◌, ◌||◌, [], ◌∷◌, none, some, ◌==◌, str_eq, str_iff, ◌≡◌, refl,
  arith, get_or, Option-cases, inl, inr,
}
use hwarr.GoMap.{get, delete, assign, has}
use hwarr.GoMap.Laws.{get-delete, get-assign}
use hwarr.Socketio.Room.{
  StringSet, SetIndex, RoomManager, index_add, index_remove, join, leave, in_room,
}

-- b is in index[a]
unfoldable pub related : SetIndex → GoString → GoString → Bool
related index a b = elim (get index a) [ none ↦ false | some s ↦ has s b ]

pub related-index_add :
    (index : SetIndex) (a b x y : GoString)
    → related (index_add index a b) x y ≡ ((a == x && b == y) || related index x y)
unfolding related index_add get
related-index_add index a b x y = ground (
  arith,
  get-assign index a x (assign (get_or (get index a) []) b tt),
  get-assign (get_or (get index a) []) b y tt,
  str_iff a x,
  str_iff b y,
)

-- An empty map has no key.
has-nil : (s : StringSet) (y : GoString) → s ≡ [] → has s y ≡ false
unfolding get
has-nil [] y h = refl
has-nil (x ∷ s) y h = ground arith

pub related-index_remove :
    (index : SetIndex) (a b x y : GoString)
    → related (index_remove index a b) x y ≡ (not (a == x && b == y) && related index x y)
unfolding related index_remove
related-index_remove index a b x y = elim (Option-cases (get index a)) [
  | inl none_a ↦ ground (arith, str_iff a x, str_iff b y)
  | inr (s, some_a) ↦ ground (
    arith,
    get-delete index a x,
    get-assign index a x (delete s b),
    get-delete s b y,
    has-nil (delete s b) y,
    str_iff a x,
    str_iff b y,
  )
]

pub in_room-related :
    (rm : RoomManager) (sid room : GoString) → in_room rm sid room ≡ related rm.rooms room sid
unfolding in_room related
in_room-related rm sid room = refl

-- After `join rm sid room` the members of the rooms are those before, and `sid` in `room`.
pub in_room-join :
    (rm : RoomManager) (sid room s r : GoString)
    → in_room (join rm sid room) s r ≡ ((sid == s && room == r) || in_room rm s r)
unfolding in_room join related
in_room-join rm sid room s r = ground (arith, related-index_add rm.rooms room sid r s)

-- After `leave rm sid room` the members of the rooms are those before, except `sid` in `room`.
pub in_room-leave :
    (rm : RoomManager) (sid room s r : GoString)
    → in_room (leave rm sid room) s r ≡ (not (sid == s && room == r) && in_room rm s r)
unfolding in_room leave related
in_room-leave rm sid room s r = ground (arith, related-index_remove rm.rooms room sid r s)
