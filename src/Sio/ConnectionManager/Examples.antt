-- ===== src/Sio/ConnectionManager/Examples.antt =====
-- A manager on which the theorems about server/internal/sio/connection_manager.go are applied.
use hwarr.Base.{GoString, codes, refl, str_eq, str_beq, none, some, ◌≡◌}
use hwarr.GoMap.{get, assign}
use hwarr.Sio.ConnectionManager.{
  Manager, new_manager, add, remove, get_previous_session, new_connection_info,
  next_reconnect_count,
}
use hwarr.Sio.ConnectionManager.Validity.{IsValid, new_manager-IsValid, add-IsValid}
use hwarr.Sio.ConnectionManager.Lookup.{session_forgotten}

abbrev sid : GoString
sid = codes "s1"

abbrev user : GoString
user = codes "u"

-- One connection of a user, made at 5 seconds.
abbrev one : Manager
one = add new_manager sid user 5000

one-IsValid : IsValid one
unfolding new_manager get
one-IsValid = add-IsValid new_manager sid user 5000 refl new_manager-IsValid

one_session : get_previous_session one user ≡ some (new_connection_info sid user 5000 0)
unfolding get_previous_session add new_manager get assign str_beq next_reconnect_count
one_session = refl

session_forgotten_example :
    (get_previous_session (remove one sid).0 user ≡ none)
    × (next_reconnect_count (remove one sid).0 user ≡ 0)
unfolding new_connection_info
session_forgotten_example =
    session_forgotten one user (new_connection_info sid user 5000 0) one-IsValid one_session
