-- ===== src/Sio/FireState.antt =====
-- The handlers that tell a client which grids burn: server/internal/sio/fire_state.go,
-- get_fires_compat.go and subscribe_viewport.go. A payload is parsed by a parameter, none where it
-- is missing or does not parse; Redis answers with a list and a count, or none for an error.
pub mod Collected
mod Examples
use hwarr.Base.{
  ℕ, GoString, codes, utf8, List, [], ◌∷◌, Option, none, some, length, ltb, if◌then◌else◌,
}
use hwarr.Base.Decimal.{pos}
use hwarr.Model.Fire.{GridState, FireStageInfo, build_grid_state, get_stage}
use hwarr.Socketio.Namespace.{World}
use hwarr.Socketio.Packet.Binary.{
  Node, Items, Fields, int, float, text, bool, arr, obj, nil, cons, field, end,
}
use hwarr.Socketio.Server.{Config}
use hwarr.Socketio.Server.Broadcast.{send_to_socket}
use hwarr.Sio.ConnectionManager.{Manager}
use hwarr.Sio.Viewport.{join_viewport_rooms, main_namespace}

-- The grids with at least one active fire, each with its count; a grid whose count is an error is
-- passed over.
abbrev pub with_count : GoString → Option ℕ → List (GoString × ℕ) → List (GoString × ℕ)
with_count grid none rest = rest
with_count grid (some count) rest = if ltb 0 count then (grid, count) ∷ rest else rest

unfoldable pub collect : (GoString → Option ℕ) → List GoString → List (GoString × ℕ)
collect counts [] = []
collect counts (grid ∷ grids) = with_count grid (counts grid) (collect counts grids)

-- "fire:state": the grids that are asked for, or all the active ones where none are.
abbrev pub requested : Option (List GoString) → Option (List GoString) → Option (List GoString)
requested none members = members
requested (some []) members = members
requested (some (grid ∷ grids)) members = some (grid ∷ grids)

module _ {F : Type 0} where
  abbrev pub int_field : GoString → ℕ → Fields F → Fields F
  int_field key n rest = field key (int (pos n)) rest

  unfoldable pub stage_info_to_map : FireStageInfo → Node F
  unfolding utf8
  stage_info_to_map info = obj (
      int_field (codes "stage") info.stage (
        field (codes "label_ko") (text (utf8 info.label_ko)) (
          field (codes "label_en") (text (codes info.label_en))
            (field (codes "triggers_firefighter") (bool info.triggers_firefighter) end))))

  abbrev pub coordinate : GoString → Option F → Fields F → Fields F
  coordinate key none rest = rest
  coordinate key (some x) rest = field key (float x) rest

  unfoldable pub grid_state_to_map : GridState F → Node F
  unfolding stage_info_to_map
  grid_state_to_map s = obj (
      field (codes "grid_id") (text s.grid_id) (
        int_field (codes "active_count") s.active_count (
          int_field (codes "stage") s.stage (
            field (codes "stage_info") (stage_info_to_map s.stage_info)
              (coordinate (codes "lat") s.lat (coordinate (codes "lng") s.lng end))))))

  abbrev pub states : List (GoString × ℕ) → List (GridState F)
  states [] = []
  states ((grid, count) ∷ rest) = build_grid_state grid count none none ∷ states rest

  abbrev pub state_nodes : List (GridState F) → Items F
  state_nodes [] = nil
  state_nodes (s ∷ rest) = cons (grid_state_to_map s) (state_nodes rest)

  -- An entry of get_fires
  abbrev pub fire_nodes : List (GoString × ℕ) → Items F
  fire_nodes [] = nil
  fire_nodes ((grid, count) ∷ rest) =
      cons
        (obj (
          field (codes "gridId") (text grid) (
            int_field (codes "activeCount") count
              (int_field (codes "stage") (get_stage count) end))))
        (fire_nodes rest)

  abbrev pub state_answer : List (GoString × ℕ) → Node F
  state_answer fires = obj (
      field (codes "status") (text (codes "ok")) (
        field (codes "grids") (arr (state_nodes (states fires)))
          (int_field (codes "total_active_grids") (length fires) end)))

  unfoldable pub fire_state :
      Option (List GoString) → Option (List GoString) → (GoString → Option ℕ) → Node F
  unfolding collect grid_state_to_map
  fire_state grid_ids members counts = elim (requested grid_ids members) [
    | none ↦ state_answer []
    | some grids ↦ state_answer (collect counts grids)
  ]

module _ {A F : Type 0} (c : Config A F) where
  -- "get_fires": the answer is an event to the socket that asks; its errors are only logged.
  abbrev pub sync : GoString → Items F → World A → World A
  sync sid fires w = (send_to_socket c main_namespace sid (codes "fires:sync") (arr fires ∷ []) w).0

  unfoldable pub get_fires :
      GoString → Option (List GoString) → (GoString → Option ℕ) → World A → World A
  unfolding send_to_socket collect
  get_fires sid none counts w = sync sid nil w
  get_fires sid (some grids) counts w = sync sid (fire_nodes (collect counts grids)) w

  -- "subscribe:viewport"; the grids of the viewport are an argument.
  abbrev pub viewport_error : Node F
  viewport_error = obj (
      field (codes "error") (text (codes "ne_lat, ne_lng, sw_lat, sw_lng are required numbers"))
        end)

  abbrev pub viewport_answer : List GoString → List (GoString × ℕ) → Node F
  viewport_answer grids fires = obj (
      field (codes "status") (text (codes "ok")) (
        int_field (codes "subscribed_grids") (length grids)
          (field (codes "active_fires") (arr (state_nodes (states fires))) end)))

  unfoldable pub subscribe_viewport :
      GoString
      → Option (List GoString)
      → (GoString → Option ℕ)
      → World A × Manager
      → (World A × Manager) × Node F
  unfolding join_viewport_rooms collect grid_state_to_map
  subscribe_viewport sid none counts state = (state, viewport_error)
  subscribe_viewport sid (some grids) counts state =
      (join_viewport_rooms c sid grids state, viewport_answer grids (collect counts grids))
