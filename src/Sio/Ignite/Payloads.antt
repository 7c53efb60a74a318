-- ===== src/Sio/Ignite/Payloads.antt =====
-- What the handlers of server/internal/sio/fire_ignite.go and fire_compat.go read and what they
-- send. The clock, what is drawn at random and the conversions on floats are the fields of an
-- `Occasion`.
use hwarr.Base.{
  ℕ, GoString, codes, List, [], ◌∷◌, Bool, true, false, Option, none, some, if◌then◌else◌, str_eq,
}
use hwarr.Model.Fire.{build_grid_state, GridState}
use hwarr.Socketio.Packet.Binary.{
  Node, Items, Fields, float, text, bool, arr, obj, nil, cons, field, end,
}
use hwarr.Sio.FireBatcher.{FireUpdate}
use hwarr.Sio.FireState.{int_field, stage_info_to_map}
use hwarr.Sio.Ignite.{FireRegistration}

pub record IgniteData (F : Type 0) : Type 0 where
  pub lat : Option F
  pub lng : Option F
  pub demo : Bool

pub record DemoLocation (F : Type 0) : Type 0 where
  pub id : GoString
  pub name : GoString
  pub lat : F
  pub lng : F
  pub description : GoString

-- What a run of a handler reads besides its arguments. `today` is the date in KST, `timestamp` the
-- time with its milliseconds, and `zero_time` the zero float.
pub record Occasion (F : Type 0) : Type 0 where
  pub now : ℕ
  pub timestamp : F
  pub zero_time : F
  pub event_id : GoString
  pub today : GoString
  pub draws : ℕ → ℕ
  pub location : DemoLocation F
  pub to_grid_id : F → F → GoString
  pub center : GoString → Option (F × F)
  pub member_of : GoString → GoString

abbrev pub fire_ttl_sec : ℕ
fire_ttl_sec = 43200

module _ {F : Type 0} where
  -- The coordinates of a fire, and the name of the demo location that stands in for them.
  unfoldable pub locate : DemoLocation F → IgniteData F → Option (F × F × GoString)
  locate location input = elim input.lat [
    | none ↦ if input.demo then some (location.lat, location.lng, location.name) else none
    | some lat ↦ elim input.lng [
      | none ↦ if input.demo then some (location.lat, location.lng, location.name) else none
      | some lng ↦ some (lat, lng, [])
    ]
  ]

  abbrev pub error_node : GoString → Node F
  error_node message = obj (field (codes "error") (text message) end)

  abbrev pub hop_nodes : List (GoString × GoString) → Items F
  hop_nodes [] = nil
  hop_nodes ((from, to) ∷ path) =
      cons (obj (field (codes "from") (text from) (field (codes "to") (text to) end)))
        (hop_nodes path)

  abbrev pub state_of : FireRegistration → Option F → Option F → GridState F
  state_of reg lat lng = build_grid_state reg.grid_id reg.active_count lat lng

  unfoldable pub ignite_payload : Occasion F → GoString → F → F → FireRegistration → Node F
  unfolding stage_info_to_map
  ignite_payload o sid lat lng reg =
      let state = state_of reg (some lat) (some lng) in
      obj (
        field (codes "grid_id") (text reg.grid_id) (
          field (codes "event_id") (text o.event_id) (
            field (codes "lat") (float lat) (
              field (codes "lng") (float lng) (
                int_field (codes "active_count") reg.active_count (
                  int_field (codes "stage") state.stage (
                    field (codes "stage_info") (stage_info_to_map state.stage_info) (
                      field (codes "ignited_by") (text sid)
                        (field (codes "timestamp") (float o.timestamp) end)))))))))

  unfoldable pub ignite_update : Occasion F → FireRegistration → FireUpdate F
  ignite_update o reg = record {
    grid_id = reg.grid_id;
    active_count = reg.active_count;
    stage = (state_of reg none none).stage;
    event_id = o.event_id;
    timestamp = o.timestamp;
    lat = none;
    lng = none;
  }

  abbrev pub demo_name : GoString → Fields F
  demo_name [] = end
  demo_name (c ∷ name) = field (codes "demo_location") (text (c ∷ name)) end

  abbrev pub demo_fields : Bool → F → F → GoString → Fields F
  demo_fields false lat lng name = end
  demo_fields true lat lng name =
      field (codes "demo") (bool true)
        (field (codes "lat") (float lat) (field (codes "lng") (float lng) (demo_name name)))

  -- The answer to the client.
  unfoldable pub ignite_answer :
      Occasion F → Bool → F → F → GoString → GoString → FireRegistration → Node F
  unfolding stage_info_to_map
  ignite_answer o demo lat lng name requested reg =
      let state = state_of reg (some lat) (some lng) in
      obj (
        field (codes "status") (text (codes "ok")) (
          field (codes "grid_id") (text reg.grid_id) (
            field (codes "requested_grid_id") (text requested) (
              field (codes "event_id") (text o.event_id) (
                int_field (codes "active_count") reg.active_count (
                  int_field (codes "stage") state.stage (
                    field (codes "stage_info") (stage_info_to_map state.stage_info) (
                      field (codes "spread_path") (arr (hop_nodes reg.spread_path))
                        (demo_fields demo lat lng name)))))))))
