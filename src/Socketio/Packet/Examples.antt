-- ===== src/Socketio/Packet/Examples.antt =====
-- Packets on which the theorems about server/pkg/socketio/packet.go are applied.
use hwarr.Base.{
  GoString, List, [], ◌∷◌, none, some, ok, codes, ◌≡◌, refl, arith, inr, true, false, length, ◌≤◌,
  ◌^◌,
}
use hwarr.Base.Decimal.{ℤ, pos, negsuc}
use hwarr.Socketio.Json.{JsonReader, check_json_depth, token, open_delim, close_delim, scalar, eof}
use hwarr.Socketio.Packet.{Packet, encode, decode}
use hwarr.Socketio.Packet.RoundTrip.{IsSendable, decode-encode}
use hwarr.Socketio.Packet.Bounds.{IsBounded, decode-IsBounded}
use hwarr.Socketio.Packet.Binary.{
  Node, text, bytes, arr, cons, nil, Floats, deconstruct_node, reconstruct_node, has_binary_value,
  contains_binary,
}
use hwarr.Socketio.Packet.Binary.Widen.{widen, has_placeholder}
use hwarr.Socketio.Packet.Binary.RoundTrip.{reconstruct_node-deconstruct_node}
use hwarr.Socketio.Packet.Build.{JsonTree, encode_binary, new_binary_event_packet}
use hwarr.Socketio.Packet.Build.Receive.{receive, receive-encode_binary}

-- A reader that takes every text for an array of one scalar.
abbrev array_reader : JsonReader
array_reader = record {
  valid = λ s. true;
  tokens = λ s. token open_delim (token scalar (token close_delim eof));
}

-- 51-/chat,7["m"]
abbrev announced : Packet
announced = record {
  type = 5;
  namespace = codes "/chat";
  id = pos 7;
  payload = some (codes "[\"m\"]");
  attachments = 1;
  binary_payloads = [];
}

announced-IsSendable : IsSendable array_reader announced
unfolding check_json_depth
announced-IsSendable = record {
  typed = omega arith;
  counted = omega arith;
  uncounted = λ h. absurd (cc);
  path = inr (codes "chat", refl, omega arith);
  acknowledged = omega arith;
  carried = ((λ h. absurd (cc)), (refl, omega arith), refl, refl);
  uncollected = refl;
}

announced_arrives : decode array_reader (encode announced) ≡ ok announced
announced_arrives = decode-encode array_reader announced announced-IsSendable

decode-encode_example : decode array_reader (encode announced) ≡ ok announced
decode-encode_example = decode-encode array_reader announced announced-IsSendable

decode-IsBounded_example : IsBounded announced
decode-IsBounded_example =
    decode-IsBounded array_reader (encode announced) {p = announced} announced_arrives

abbrev collected : Packet
collected = record announced { binary_payloads = codes "x" ∷ [] }

receive-encode_binary_example :
    receive array_reader
      (encode_binary collected).text_frame
      (encode_binary collected).binary_frames
    ≡ ok collected
receive-encode_binary_example =
    receive-encode_binary array_reader collected announced-IsSendable refl

-- Numbers that are their own float64s.
abbrev exact_floats : Floats ℤ
exact_floats = record { int_of = λ n. n; float_of = λ n. n }

-- ["img", <2 bytes>]
abbrev image : Node ℤ
image = arr (cons (text (codes "img")) (cons (bytes (codes "ab")) nil))

image_few : length (deconstruct_node image []).1 ≤ 2 ^ 53
unfolding deconstruct_node
image_few = omega arith

image_plain : has_placeholder exact_floats (widen exact_floats image) ≡ false
unfolding widen has_placeholder
image_plain = refl

reconstruct_node-deconstruct_node_example :
    reconstruct_node exact_floats
      (widen exact_floats (deconstruct_node image []).0)
      (deconstruct_node image []).1
    ≡ widen exact_floats image
reconstruct_node-deconstruct_node_example =
    reconstruct_node-deconstruct_node exact_floats image (λ n h. refl) image_few image_plain

abbrev args : List (Node ℤ)
args = bytes (codes "ab") ∷ []

-- The text that this encoding/json writes and reads for the tree of the image's event.
abbrev image_text : GoString
image_text = codes "[\"img\",{\"_placeholder\":true,\"num\":0}]"

abbrev image_json : JsonTree ℤ
image_json = record {
  marshal = λ t. some image_text;
  unmarshal = λ s. some (widen exact_floats (deconstruct_node image []).0);
  unmarshal_array = λ s. none;
  unmarshal_string = λ s. none;
}

abbrev image_packet : Packet
image_packet = record {
  type = 5;
  namespace = codes "/";
  id = negsuc 0;
  payload = some image_text;
  attachments = 1;
  binary_payloads = codes "ab" ∷ [];
}

image_packet_built :
    new_binary_event_packet image_json (codes "/") (codes "img") (negsuc 0) args ≡ ok image_packet
unfolding new_binary_event_packet contains_binary has_binary_value deconstruct_node
image_packet_built = refl
