-- ===== src/Socketio/Room/Consistency.antt =====
-- The two indexes of a RoomManager against each other, server/pkg/socketio/room.go.
use hwarr.Base.{
  contains, GoString, not, ◌&&◌, List, [], ◌∷◌, some, ◌==◌, str_eq, str_iff, ◌≡◌, ◌≢◌, refl, arith,
  get_or, Option-cases, inl, inr,
}
use hwarr.GoMap.{get, delete, assign, has, keys}
use hwarr.GoMap.Laws.{get-delete, get-assign}
use hwarr.Socketio.Room.{
  StringSet, SetIndex, RoomManager, index_add, index_remove, join, leave, leave_all, in_room,
  remove_from_each,
}
use hwarr.Socketio.Room.Membership.{related, related-index_add, related-index_remove}

abbrev NoEmpty : SetIndex → Type 0
NoEmpty index = (a : GoString) → get index a ≢ some []

pub record IsConsistent (rm : RoomManager) : Type 0 where
  pub mirrored : (sid room : GoString) → related rm.rooms room sid ≡ related rm.sids sid room
  pub rooms_filled : (room : GoString) → get rm.rooms room ≢ some []
  pub sids_filled : (sid : GoString) → get rm.sids sid ≢ some []

index_add-NoEmpty :
    (index : SetIndex) (a b : GoString) → NoEmpty index → NoEmpty (index_add index a b)
unfolding index_add assign
index_add-NoEmpty index a b h x =
    ground (arith, h x, get-assign index a x (assign (get_or (get index a) []) b tt))

index_remove-NoEmpty :
    (index : SetIndex) (a b : GoString) → NoEmpty index → NoEmpty (index_remove index a b)
unfolding index_remove
index_remove-NoEmpty index a b h x = elim (Option-cases (get index a)) [
  | inl none_a ↦ ground (arith, h x)
  | inr (s, some_a) ↦
      ground (arith, h x, get-delete index a x, get-assign index a x (delete s b), str_iff a x)
]

pub contains-keys : (s : StringSet) (x : GoString) → contains (keys s) x ≡ has s x
unfolding get
contains-keys [] x = refl
contains-keys ((y, _) ∷ s) x = ground (arith, contains-keys s x)

related-remove_from_each :
    (index : SetIndex) (sid : GoString) (rooms : List GoString) (x y : GoString)
    → related (remove_from_each index sid rooms) x y
      ≡ (not (sid == y && contains rooms x) && related index x y)
unfolding remove_from_each
related-remove_from_each index sid [] x y = ground arith
related-remove_from_each index sid (room ∷ rooms) x y = ground (
  arith,
  related-remove_from_each (index_remove index room sid) sid rooms x y,
  related-index_remove index room sid x y,
)

remove_from_each-NoEmpty :
    (index : SetIndex) (sid : GoString) (rooms : List GoString)
    → NoEmpty index
    → NoEmpty (remove_from_each index sid rooms)
unfolding remove_from_each
remove_from_each-NoEmpty index sid [] h = h
remove_from_each-NoEmpty index sid (room ∷ rooms) h =
    remove_from_each-NoEmpty (index_remove index room sid) sid rooms
      (index_remove-NoEmpty index room sid h)

delete-NoEmpty : (index : SetIndex) (a : GoString) → NoEmpty index → NoEmpty (delete index a)
delete-NoEmpty index a h x = ground (arith, h x, get-delete index a x)

pub join-IsConsistent :
    (rm : RoomManager) (sid room : GoString) → IsConsistent rm → IsConsistent (join rm sid room)
unfolding join
join-IsConsistent rm sid room c = record {
  mirrored = λ s r. ground (
    arith,
    c.mirrored s r,
    related-index_add rm.rooms room sid r s,
    related-index_add rm.sids sid room s r,
  );
  rooms_filled = index_add-NoEmpty rm.rooms room sid c.rooms_filled;
  sids_filled = index_add-NoEmpty rm.sids sid room c.sids_filled;
}

pub leave-IsConsistent :
    (rm : RoomManager) (sid room : GoString) → IsConsistent rm → IsConsistent (leave rm sid room)
unfolding leave
leave-IsConsistent rm sid room c = record {
  mirrored = λ s r. ground (
    arith,
    c.mirrored s r,
    related-index_remove rm.rooms room sid r s,
    related-index_remove rm.sids sid room s r,
  );
  rooms_filled = index_remove-NoEmpty rm.rooms room sid c.rooms_filled;
  sids_filled = index_remove-NoEmpty rm.sids sid room c.sids_filled;
}

-- The memberships that LeaveAll leaves: the socket's rooms are found through `sids`.
pub in_room-leave_all :
    (rm : RoomManager) (sid s r : GoString)
    → IsConsistent rm
    → in_room (leave_all rm sid) s r ≡ (not (sid == s) && in_room rm s r)
unfolding leave_all in_room related
in_room-leave_all rm sid s r c = elim (Option-cases (get rm.sids sid)) [
  | inl none_sid ↦ ground (arith, c.mirrored s r, str_iff sid s)
  | inr (rooms, some_sid) ↦ ground (
    arith,
    c.mirrored s r,
    str_iff sid s,
    contains-keys rooms r,
    related-remove_from_each rm.rooms sid (keys rooms) r s,
  )
]

pub leave_all-IsConsistent :
    (rm : RoomManager) (sid : GoString) → IsConsistent rm → IsConsistent (leave_all rm sid)
unfolding leave_all related
leave_all-IsConsistent rm sid c = elim (Option-cases (get rm.sids sid)) [
  | inl none_sid ↦ rw (none_sid, leave_all) c
  | inr (rooms, some_sid) ↦
      rw (some_sid, leave_all)
        (record {
          mirrored = λ s r. ground (
            arith,
            c.mirrored s r,
            str_iff sid s,
            contains-keys rooms r,
            get-delete rm.sids sid s,
            related-remove_from_each rm.rooms sid (keys rooms) r s,
          );
          rooms_filled = remove_from_each-NoEmpty rm.rooms sid (keys rooms) c.rooms_filled;
          sids_filled = delete-NoEmpty rm.sids sid c.sids_filled;
        })
]
