-- ===== src/Socketio/Packet/Build.antt =====
-- The constructors and accessors of a packet in server/pkg/socketio/packet.go. encoding/json enters
-- as `JsonTree`: marshalling a tree, and reading a text as a tree, as an array of raw elements or
-- as a string; `none` is its error.
pub mod Receive
use hwarr.Base.{
  ℕ, GoString, List, [], ◌∷◌, ◌++◌, Bool, true, false, ◌&&◌, ◌||◌, Option, none, some, length,
  Result, ok, err, ◌>>=◌, leb, nat_beq, if◌then◌else◌, codes, str_eq,
}
use hwarr.Base.Decimal.{ℤ, negsuc}
use hwarr.Socketio.Packet.{
  Packet, PacketError, wrong_type, event_no_name, event_no_array, marshal_failed, parse_failed,
  attachments_missing, packet_connect, packet_event, packet_ack, packet_connect_error,
  packet_binary_event, packet_binary_ack, is_binary, root, encode,
}
use hwarr.Socketio.Packet.Binary.{
  Node, text, arr, obj, Items, nil, cons, field, end, Floats, deconstruct_items, deconstruct_node,
  reconstruct_node, contains_binary,
}

pub record JsonTree (F : Type 0) : Type 0 where
  pub marshal : Node F → Option GoString
  pub unmarshal : GoString → Option (Node F)
  pub unmarshal_array : GoString → Option (List GoString)
  pub unmarshal_string : GoString → Option GoString

abbrev pub items_of : {F : Type 0} → List (Node F) → Items F
items_of [] = nil
items_of (x ∷ xs) = cons x (items_of xs)

-- if namespace == "" { namespace = "/" }
abbrev pub or_root : GoString → GoString
or_root [] = root
or_root (c ∷ s) = c ∷ s

abbrev pub marshalled : Option GoString → Result PacketError GoString
marshalled none = err marshal_failed
marshalled (some s) = ok s

abbrev pub parsed {ℓ} : {A : Type ℓ} → PacketError → Option A → Result PacketError A
parsed e none = err e
parsed e (some a) = ok a

unfoldable pub add_attachment : Packet → GoString → Packet × Bool
add_attachment p buffer =
    let p' = record p { binary_payloads = p.binary_payloads ++ buffer ∷ [] } in
    if is_binary p.type then (p', leb p.attachments (length p'.binary_payloads)) else (p, false)

unfoldable pub is_complete : Packet → Bool
is_complete p = if is_binary p.type then leb p.attachments (length p.binary_payloads) else true

abbrev pub is_event : ℕ → Bool
is_event t = nat_beq t packet_event || nat_beq t packet_binary_event

abbrev pub is_ack : ℕ → Bool
is_ack t = nat_beq t packet_ack || nat_beq t packet_binary_ack

pub record EncodedBinaryPacket : Type 0 where
  pub text_frame : GoString
  pub binary_frames : List GoString

-- The buffers are the frames: an empty list of buffers and none are the same frames.
unfoldable pub encode_binary : Packet → EncodedBinaryPacket
encode_binary p = record {
  text_frame = encode p;
  binary_frames = if is_binary p.type then p.binary_payloads else [];
}

module _ {F : Type 0} (json : JsonTree F) where
  abbrev pub first_name : List GoString → Result PacketError GoString
  first_name [] = err event_no_name
  first_name (x ∷ xs) = parsed event_no_name (json.unmarshal_string x)

  unfoldable pub event_name : Packet → Result PacketError GoString
  event_name p =
      if is_event p.type
      then elim p.payload [
        | none ↦ err event_no_name
        | some s ↦ do elements ← parsed event_no_array (json.unmarshal_array s); first_name elements
      ]
      else err wrong_type

  abbrev pub rest_of : List GoString → List GoString
  rest_of [] = []
  rest_of (x ∷ xs) = xs

  unfoldable pub event_args : Packet → Result PacketError (List GoString)
  event_args p =
      if is_event p.type
      then elim p.payload [
        | none ↦ ok []
        | some s ↦ do
          elements ← parsed event_no_array (json.unmarshal_array s)
          ok (rest_of elements)
      ]
      else err wrong_type

  unfoldable pub ack_data : Packet → Result PacketError (List GoString)
  ack_data p =
      if is_ack p.type
      then elim p.payload [ none ↦ ok [] | some s ↦ parsed event_no_array (json.unmarshal_array s) ]
      else err wrong_type

  abbrev pub text_packet : ℕ → GoString → ℤ → Option GoString → Packet
  text_packet type namespace id payload = record {
    type = type;
    namespace = or_root namespace;
    id = id;
    payload = payload;
    attachments = 0;
    binary_payloads = [];
  }

  unfoldable pub new_event_packet :
      GoString → GoString → ℤ → List (Node F) → Result PacketError Packet
  new_event_packet namespace event ack_id args = do
    payload ← marshalled (json.marshal (arr (cons (text event) (items_of args))))
    ok (text_packet packet_event namespace ack_id (some payload))

  unfoldable pub new_connect_packet : GoString → GoString → Result PacketError Packet
  new_connect_packet namespace sid = do
    payload ← marshalled (json.marshal (obj (field (codes "sid") (text sid) end)))
    ok (text_packet packet_connect namespace (negsuc 0) (some payload))

  unfoldable pub new_connect_error_packet : GoString → GoString → Result PacketError Packet
  new_connect_error_packet namespace message = do
    payload ← marshalled (json.marshal (obj (field (codes "message") (text message) end)))
    ok (text_packet packet_connect_error namespace (negsuc 0) (some payload))

  unfoldable pub new_ack_packet : GoString → ℤ → List (Node F) → Result PacketError Packet
  new_ack_packet namespace ack_id [] = ok (text_packet packet_ack namespace ack_id none)
  new_ack_packet namespace ack_id (x ∷ xs) = do
    payload ← marshalled (json.marshal (arr (items_of (x ∷ xs))))
    ok (text_packet packet_ack namespace ack_id (some payload))

  abbrev pub binary_packet : ℕ → GoString → ℤ → Items F × List GoString → Result PacketError Packet
  binary_packet type namespace id (items, buffers) = do
    payload ← marshalled (json.marshal (arr items))
    ok (record {
      type = type;
      namespace = or_root namespace;
      id = id;
      payload = some payload;
      attachments = length buffers;
      binary_payloads = buffers;
    })

  unfoldable pub new_binary_event_packet :
      GoString → GoString → ℤ → List (Node F) → Result PacketError Packet
  unfolding new_event_packet contains_binary
  new_binary_event_packet namespace event ack_id args =
      if contains_binary args
      then binary_packet packet_binary_event namespace ack_id
          (deconstruct_items (cons (text event) (items_of args)) [])
      else new_event_packet namespace event ack_id args

  unfoldable pub new_binary_ack_packet : GoString → ℤ → List (Node F) → Result PacketError Packet
  unfolding new_ack_packet contains_binary
  new_binary_ack_packet namespace ack_id args =
      if contains_binary args
      then binary_packet packet_binary_ack namespace ack_id (deconstruct_items (items_of args) [])
      else new_ack_packet namespace ack_id args

  -- The packet type with binary data; other types stay.
  abbrev pub upgraded : ℕ → ℕ
  upgraded t =
      if nat_beq t packet_event
      then packet_binary_event
      else if nat_beq t packet_ack
      then packet_binary_ack
      else t

  abbrev pub with_buffers : Packet → Node F × List GoString → Result PacketError Packet
  with_buffers p (tree, []) = ok p
  with_buffers p (tree, b ∷ bs) = do
    payload ← marshalled (json.marshal tree)
    ok (record p {
      payload = some payload;
      binary_payloads = b ∷ bs;
      attachments = length (b ∷ bs);
      type = upgraded p.type;
    })

  unfoldable pub deconstruct_binary : Packet → Result PacketError Packet
  deconstruct_binary p = elim p.payload [
    | none ↦ ok p
    | some s ↦ do
      tree ← parsed parse_failed (json.unmarshal s)
      with_buffers p (deconstruct_node tree [])
  ]

module _ {F : Type 0} (floats : Floats F) (json : JsonTree F) where
  unfoldable pub reconstruct_binary : Packet → Result PacketError Packet
  unfolding is_complete
  reconstruct_binary p =
      let rebuilt : Result PacketError Packet = elim p.payload [
        | none ↦ ok p
        | some s ↦ do
          tree ← parsed parse_failed (json.unmarshal s)
          payload ← marshalled (json.marshal (reconstruct_node floats tree p.binary_payloads))
          ok (record p { payload = some payload })
      ] in
      if is_binary p.type then if is_complete p then rebuilt else err attachments_missing else ok p

  unfoldable pub reconstructed_data : Packet → Result PacketError (Option (Node F))
  unfolding is_complete
  reconstructed_data p = elim p.payload [
    | none ↦ ok none
    | some s ↦ do
      tree ← parsed parse_failed (json.unmarshal s)
      ok (
          some (
            if is_binary p.type && is_complete p
            then reconstruct_node floats tree p.binary_payloads
            else tree))
  ]
