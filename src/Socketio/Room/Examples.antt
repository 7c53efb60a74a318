-- ===== src/Socketio/Room/Examples.antt =====
-- Calls on which the theorems about server/pkg/socketio/room.go are applied.
use hwarr.Base.{List, [], ◌∷◌, codes, false, ◌≡◌}
use hwarr.Socketio.Room.{new_room_manager, in_room}
use hwarr.Socketio.Room.Consistency.{IsConsistent}
use hwarr.Socketio.Room.History.{
  RoomCall, do_join, do_leave, do_leave_all, run_calls, describe_all, run_calls-IsConsistent,
  in_room-run_calls,
}

abbrev visits : List RoomCall
visits =
    do_join (codes "a") (codes "lobby")
    ∷ do_join (codes "b") (codes "lobby")
    ∷ do_leave (codes "b") (codes "lobby")
    ∷ do_leave_all (codes "a")
    ∷ []

run_calls-IsConsistent_example : IsConsistent (run_calls new_room_manager visits)
run_calls-IsConsistent_example = run_calls-IsConsistent visits

in_room-run_calls_example :
    in_room (run_calls new_room_manager visits) (codes "a") (codes "lobby")
    ≡ describe_all (λ x y. false) visits (codes "a") (codes "lobby")
in_room-run_calls_example = in_room-run_calls visits (codes "a") (codes "lobby")
