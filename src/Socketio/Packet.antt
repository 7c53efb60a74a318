-- ===== src/Socketio/Packet.antt =====
-- The Socket.IO packet of server/pkg/socketio/packet.go and its text format. The packet types are
-- the numbers of the source; a nil `Data` is `none`. An error keeps which of the source's errors
-- it is.
pub mod Binary
pub mod RoundTrip
pub mod Bounds
pub mod Build
mod Examples
use hwarr.Base.{
  ℕ, ◌+◌, ◌-◌, ◌%◌, GoString, List, [], ◌∷◌, ◌++◌, Bool, ◌||◌, Option, none, some, Result, ok, err,
  ◌>>=◌, ltb, nat_beq, if◌then◌else◌, ◌==◌, str_eq,
}
use hwarr.Base.Decimal.{ℤ, pos, negsuc, itoa, atoi, is_digit}
use hwarr.Socketio.Json.{JsonReader, check_json_depth, too_deep, bad_token}

abbrev pub packet_connect : ℕ
packet_connect = 0

abbrev pub packet_disconnect : ℕ
packet_disconnect = 1

abbrev pub packet_event : ℕ
packet_event = 2

abbrev pub packet_ack : ℕ
packet_ack = 3

abbrev pub packet_connect_error : ℕ
packet_connect_error = 4

abbrev pub packet_binary_event : ℕ
packet_binary_event = 5

abbrev pub packet_binary_ack : ℕ
packet_binary_ack = 6

abbrev pub max_attachments : ℕ
max_attachments = 100

pub record Packet : Type 0 where
  pub type : ℕ
  pub namespace : GoString
  pub id : ℤ
  pub payload : Option GoString
  pub attachments : ℕ
  pub binary_payloads : List GoString

pub data PacketError : Type 0 where
  empty_packet invalid_type malformed_packet too_many_attachments invalid_json : PacketError
  json_too_deep event_no_array event_no_name wrong_type : PacketError
  marshal_failed parse_failed attachments_missing : PacketError

abbrev pub root : GoString
root = b'/' ∷ []

abbrev pub is_binary : ℕ → Bool
is_binary t = nat_beq t packet_binary_event || nat_beq t packet_binary_ack

-- strings.IndexByte, with what stands before and behind the byte
unfoldable pub cut_at : ℕ → GoString → Option (GoString × GoString)
cut_at sep [] = none
cut_at sep (c ∷ s) =
    let later : Option (GoString × GoString) = elim (cut_at sep s) [
      | none ↦ none
      | some (before, after) ↦ some (c ∷ before, after)
    ] in
    if nat_beq c sep then some ([], s) else later

-- Step 2 of Decode: the attachment count, and the text behind it.
unfoldable pub decode_attachments : ℕ → GoString → Result PacketError (ℕ × GoString)
unfolding cut_at
decode_attachments type s =
    let counted : Result PacketError (ℕ × GoString) = elim (cut_at b'-' s) [
      | none ↦ err malformed_packet
      | some (number, rest) ↦ elim (atoi number) [
        | none ↦ err malformed_packet
        | some (negsuc n) ↦ err too_many_attachments
        | some (pos n) ↦ if ltb max_attachments n then err too_many_attachments else ok (n, rest)
      ]
    ] in
    if is_binary type then counted else ok (0, s)

-- The digits that a text begins with, and the rest.
unfoldable pub span_digits : GoString → GoString × GoString
span_digits [] = ([], [])
span_digits (c ∷ s) =
    let (digits, rest) = span_digits s in if is_digit c then (c ∷ digits, rest) else ([], c ∷ s)

-- Step 4: the acknowledgement id, -1 where there is no digit.
unfoldable pub decode_digits : GoString × GoString → Result PacketError (ℤ × GoString)
decode_digits ([], rest) = ok (negsuc 0, rest)
decode_digits (c ∷ digits, rest) = elim (atoi (c ∷ digits)) [
  | none ↦ err malformed_packet
  | some n ↦ ok (n, rest)
]

unfoldable pub decode_id : GoString → Result PacketError (ℤ × GoString)
unfolding span_digits decode_digits
decode_id s = decode_digits (span_digits s)

module _ (json : JsonReader) where
  -- Step 5: the rest of the text is the JSON payload.
  unfoldable pub decode_payload : GoString → Result PacketError (Option GoString)
  decode_payload [] = ok none
  decode_payload (c ∷ s) = elim (check_json_depth json (c ∷ s)) [
    | some too_deep ↦ err json_too_deep
    | some bad_token ↦ err invalid_json
    | none ↦ if json.valid (c ∷ s) then ok (some (c ∷ s)) else err invalid_json
  ]

  unfoldable pub decode_rest : ℕ → ℕ → GoString → GoString → Result PacketError Packet
  unfolding decode_id decode_payload
  decode_rest type attachments namespace s = do
    (id, s') ← decode_id s
    payload ← decode_payload s'
    ok (record {
      type = type;
      namespace = namespace;
      id = id;
      payload = payload;
      attachments = attachments;
      binary_payloads = [];
    })

  -- Step 3: a namespace begins with a slash and ends with a comma, or is all that is left.
  unfoldable pub decode_namespace : ℕ → ℕ → GoString → Result PacketError Packet
  unfolding decode_rest cut_at
  decode_namespace type attachments [] = decode_rest type attachments root []
  decode_namespace type attachments (c ∷ s) =
      let named : Result PacketError Packet = elim (cut_at b',' (c ∷ s)) [
        | some (namespace, rest) ↦ decode_rest type attachments namespace rest
        | none ↦ ok (record {
          type = type;
          namespace = c ∷ s;
          id = negsuc 0;
          payload = none;
          attachments = attachments;
          binary_payloads = [];
        })
      ] in
      if nat_beq c b'/' then named else decode_rest type attachments root (c ∷ s)

  -- The type is a byte less '0', and wraps.
  unfoldable pub decode : GoString → Result PacketError Packet
  unfolding decode_attachments decode_namespace
  decode [] = err empty_packet
  decode (c ∷ s) =
      let type = (c + 256 - b'0') % 256 in
      if ltb packet_binary_ack type
      then err invalid_type
      else do (attachments, s') ← decode_attachments type s; decode_namespace type attachments s'

unfoldable pub encode_attachments : Packet → GoString
encode_attachments p = if is_binary p.type then itoa p.attachments ++ b'-' ∷ [] else []

unfoldable pub encode_namespace : GoString → GoString
encode_namespace namespace =
    if namespace == root || namespace == [] then [] else namespace ++ b',' ∷ []

unfoldable pub encode_id : ℤ → GoString
encode_id (pos n) = itoa n
encode_id (negsuc n) = []

unfoldable pub encode_payload : Option GoString → GoString
encode_payload none = []
encode_payload (some text) = text

unfoldable pub encode : Packet → GoString
unfolding encode_attachments encode_namespace encode_id encode_payload
encode p =
    (b'0' + p.type) % 256
    ∷ (encode_attachments p
        ++ (encode_namespace p.namespace ++ (encode_id p.id ++ encode_payload p.payload)))
