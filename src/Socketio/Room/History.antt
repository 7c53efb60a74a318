-- ===== src/Socketio/Room/History.antt =====
-- Every sequence of calls on a RoomManager, against the relation that the calls describe.
use hwarr.Base.{
  GoString, Bool, false, not, ◌&&◌, ◌||◌, List, [], ◌∷◌, ◌==◌, str_eq, ◌≡◌, refl, fun_ext,
}
use hwarr.GoMap.{get}
use hwarr.Socketio.Room.{RoomManager, join, leave, leave_all, in_room, new_room_manager}
use hwarr.Socketio.Room.Membership.{related, in_room-join, in_room-leave}
use hwarr.Socketio.Room.Consistency.{
  IsConsistent, join-IsConsistent, leave-IsConsistent, leave_all-IsConsistent, in_room-leave_all,
}

pub data RoomCall : Type 0 where
  do_join : GoString → GoString → RoomCall
  do_leave : GoString → GoString → RoomCall
  do_leave_all : GoString → RoomCall

pub call : RoomManager → RoomCall → RoomManager
call rm (do_join sid room) = join rm sid room
call rm (do_leave sid room) = leave rm sid room
call rm (do_leave_all sid) = leave_all rm sid

pub run_calls : RoomManager → List RoomCall → RoomManager
unfolding call
run_calls rm [] = rm
run_calls rm (c ∷ cs) = run_calls (call rm c) cs

-- Which sockets are in which rooms, as a relation with no representation.
abbrev pub Members : Type 0
Members = GoString → GoString → Bool

abbrev pub describe : Members → RoomCall → Members
describe m (do_join sid room) s r = (sid == s && room == r) || m s r
describe m (do_leave sid room) s r = not (sid == s && room == r) && m s r
describe m (do_leave_all sid) s r = not (sid == s) && m s r

abbrev pub describe_all : Members → List RoomCall → Members
describe_all m [] = m
describe_all m (c ∷ cs) = describe_all (describe m c) cs

call-IsConsistent : (rm : RoomManager) (c : RoomCall) → IsConsistent rm → IsConsistent (call rm c)
unfolding call
call-IsConsistent rm (do_join sid room) h = join-IsConsistent rm sid room h
call-IsConsistent rm (do_leave sid room) h = leave-IsConsistent rm sid room h
call-IsConsistent rm (do_leave_all sid) h = leave_all-IsConsistent rm sid h

pub new_room_manager-IsConsistent : IsConsistent new_room_manager
unfolding new_room_manager related get
new_room_manager-IsConsistent = record {
  mirrored = λ s r. refl;
  rooms_filled = λ r h. cc;
  sids_filled = λ s h. cc;
}

run_calls-IsConsistent-from :
    (cs : List RoomCall) (rm : RoomManager) → IsConsistent rm → IsConsistent (run_calls rm cs)
unfolding run_calls
run_calls-IsConsistent-from [] rm h = h
run_calls-IsConsistent-from (c ∷ cs) rm h =
    run_calls-IsConsistent-from cs (call rm c) (call-IsConsistent rm c h)

-- After any sequence of Join, Leave and LeaveAll on a new manager, the index by room and the
-- index by socket hold the same pairs, and neither holds an empty set.
pub run_calls-IsConsistent : (cs : List RoomCall) → IsConsistent (run_calls new_room_manager cs)
run_calls-IsConsistent cs =
    run_calls-IsConsistent-from cs new_room_manager new_room_manager-IsConsistent

in_room-call :
    (rm : RoomManager) (c : RoomCall) (s r : GoString)
    → IsConsistent rm
    → in_room (call rm c) s r ≡ describe (in_room rm) c s r
unfolding call
in_room-call rm (do_join sid room) s r h = in_room-join rm sid room s r
in_room-call rm (do_leave sid room) s r h = in_room-leave rm sid room s r
in_room-call rm (do_leave_all sid) s r h = in_room-leave_all rm sid s r h

in_room-run_calls-from :
    (cs : List RoomCall) (rm : RoomManager) (s r : GoString)
    → IsConsistent rm
    → in_room (run_calls rm cs) s r ≡ describe_all (in_room rm) cs s r
unfolding run_calls
in_room-run_calls-from [] rm s r h = refl
in_room-run_calls-from (c ∷ cs) rm s r h =
    let step : in_room (call rm c) ≡ describe (in_room rm) c =
      fun_ext (λ x. fun_ext (λ y. in_room-call rm c x y h)) in
    rw (← step) (in_room-run_calls-from cs (call rm c) s r (call-IsConsistent rm c h))

in_room-new : in_room new_room_manager ≡ (λ s r. false)
unfolding in_room new_room_manager get
in_room-new = refl

-- After any sequence of Join, Leave and LeaveAll on a new manager, InRoom answers exactly as the
-- relation that starts empty and is changed by each call in turn: a join adds its pair, a leave
-- takes its pair away, and a leave of all takes away every pair of its socket.
pub in_room-run_calls :
    (cs : List RoomCall) (s r : GoString)
    → in_room (run_calls new_room_manager cs) s r ≡ describe_all (λ x y. false) cs s r
in_room-run_calls cs s r =
    rw (← in_room-new)
      (in_room-run_calls-from cs new_room_manager s r new_room_manager-IsConsistent)
