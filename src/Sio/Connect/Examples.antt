-- ===== src/Sio/Connect/Examples.antt =====
-- A user who comes back, on whom the theorems about server/internal/sio/handler.go are applied.
use hwarr.Base.{
  true, contains, GoString, codes, [], ◌∷◌, none, some, ok, str_eq, str_beq, ◌≡◌, refl,
}
use hwarr.Base.Decimal.{atoi, parse_nat, parse_digits}
use hwarr.Base.Split.{split_once}
use hwarr.GoMap.{get, assign}
use hwarr.Auth.Token.{TokenService, validate, split_three}
use hwarr.Socketio.Namespace.Connection.{member}
use hwarr.Sio.Examples.{server, main_space, main_found, quiet}
use hwarr.Sio.ConnectionManager.{
  Manager, new_manager, add, set_rooms, get_rooms, update, new_connection_info, room_set,
}
use hwarr.Sio.ConnectionManager.Validity.{IsValid, new_manager-IsValid, add-IsValid}
use hwarr.Sio.ConnectionManager.Updates.{set_rooms-IsValid}
use hwarr.Sio.Connect.{handle_connect}
use hwarr.Sio.Connect.Restored.{handle_connect-restores}

abbrev service : TokenService
service = record { mac = λ p. codes "ab"; ttl = 600 }

abbrev token : GoString
token = codes "u1:1600:ab"

-- The user's first socket watches a grid.
abbrev watched : Manager
watched = set_rooms (add new_manager (codes "s0") (codes "u1") 5000) (codes "s0") (codes "g1" ∷ [])

watched-IsValid : IsValid watched
unfolding new_manager get
watched-IsValid =
    set_rooms-IsValid (add new_manager (codes "s0") (codes "u1") 5000) (codes "s0")
      (codes "g1" ∷ [])
      (add-IsValid new_manager (codes "s0") (codes "u1") 5000 refl new_manager-IsValid)

token_valid : validate service token 1200 ≡ ok (codes "u1")
unfolding validate split_three split_once atoi parse_nat parse_digits str_beq
token_valid = refl

-- The grid that the first socket watches is restored.
handle_connect-restores_example :
    let after =
      handle_connect server service (codes "s1") 7 6000 1200 (some token) (quiet, watched) in
    (after.1 ≡ none)
    × (member after.0.0 (codes "/") (codes "s1") (codes "g1") ≡ true)
    × (contains (get_rooms after.0.1 (codes "s1")) (codes "g1") ≡ true)
unfolding set_rooms update add new_manager new_connection_info room_set get assign str_beq
handle_connect-restores_example =
    handle_connect-restores server main_space main_found service (codes "s1") 7 6000 1200 token
      (codes "u1") quiet watched (codes "/") (codes "s1") (codes "g1") watched-IsValid token_valid
