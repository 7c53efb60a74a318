-- ===== src/Engineio/Packet.antt =====
-- server/pkg/engineio/packet.go: packets and polling payloads as bytes. A nil and an empty `Data`
-- are one empty list, since the code asks for the length only.
pub mod RoundTrip
mod Examples
use hwarr.Base.{
  ℕ, ◌+◌, ◌/◌, ◌%◌, GoString, List, [], ◌∷◌, ◌++◌, map, ◌||◌, Result, ok, err, ◌>>=◌, ltb,
  if◌then◌else◌, map_result,
}
use hwarr.Base.Split.{split, join_parts}

abbrev pub packet_open : ℕ
packet_open = b'0'

abbrev pub packet_close : ℕ
packet_close = b'1'

abbrev pub packet_ping : ℕ
packet_ping = b'2'

abbrev pub packet_pong : ℕ
packet_pong = b'3'

abbrev pub packet_message : ℕ
packet_message = b'4'

abbrev pub packet_upgrade : ℕ
packet_upgrade = b'5'

abbrev pub packet_noop : ℕ
packet_noop = b'6'

pub record Packet : Type 0 where
  pub type : ℕ
  pub payload : GoString

pub data PacketError : Type 0 where
  empty_packet : PacketError
  invalid_type : ℕ → PacketError

-- string(b) for a byte: its code point in UTF-8
unfoldable pub rune_string : ℕ → GoString
rune_string b = if ltb b 128 then b ∷ [] else (192 + b / 64) ∷ (128 + b % 64) ∷ []

-- `string(p.Type) + string(p.Data)`; the branch for no data gives the same bytes
unfoldable pub encode : Packet → GoString
unfolding rune_string
encode p = elim p.payload [ [] ↦ rune_string p.type | c ∷ rest ↦ rune_string p.type ++ (c ∷ rest) ]

unfoldable pub decode_packet : GoString → Result PacketError Packet
decode_packet [] = err empty_packet
decode_packet (t ∷ rest) =
    if ltb t packet_open || ltb packet_noop t
    then err (invalid_type t)
    else ok (record { type = t; payload = rest })

abbrev pub record_separator : ℕ
record_separator = 0x1e

unfoldable pub encode_payload : List Packet → GoString
unfolding encode
encode_payload [] = []
encode_payload (p ∷ []) = encode p
encode_payload (p ∷ q ∷ ps) = join_parts (map encode (p ∷ q ∷ ps)) record_separator

unfoldable pub decode_payload : GoString → Result PacketError (List Packet)
unfolding decode_packet
decode_payload [] = ok []
decode_payload (c ∷ s) = map_result decode_packet (split (c ∷ s) record_separator)
