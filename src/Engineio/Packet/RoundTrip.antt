-- ===== src/Engineio/Packet/RoundTrip.antt =====
-- Encoding and decoding of the packets and payloads of server/pkg/engineio/packet.go, in turn.
use hwarr.Base.{
  ℕ, ◌≤◌, ◌≡◌, ◌≢◌, refl, GoString, List, [], ◌∷◌, ◌++◌, map, ok, arith, All, map_result,
  Result-cases, inl, inr,
}
use hwarr.Base.Split.{split, join_parts, Lacks, split-join_parts, join_parts-split}
use hwarr.Engineio.Packet.{
  Packet, encode, decode_packet, encode_payload, decode_payload, packet_open, packet_noop,
  record_separator,
}

abbrev pub IsPacket : Packet → Type 0
IsPacket p = (packet_open ≤ p.type) × (p.type ≤ packet_noop)

-- A packet of one of the seven types is decoded from its encoding, whatever its data.
pub decode_packet-encode : (p : Packet) → IsPacket p → decode_packet (encode p) ≡ ok p
unfolding decode_packet encode
decode_packet-encode p h = ground arith

-- What decodes to a packet is that packet's encoding.
pub encode-decode_packet : (s : GoString) {p : Packet} → decode_packet s ≡ ok p → encode p ≡ s
unfolding decode_packet encode
encode-decode_packet [] h = cc
encode-decode_packet (t ∷ s) h = ground arith

abbrev pub IsFramed : Packet → Type 0
IsFramed p = IsPacket p × Lacks record_separator p.payload

encode-Lacks : (p : Packet) → IsFramed p → Lacks record_separator (encode p)
unfolding encode
encode-Lacks p h = ground arith

map-encode-Lacks :
    (ps : List Packet) → All IsFramed ps → All (Lacks record_separator) (map encode ps)
map-encode-Lacks [] h = tt
map-encode-Lacks (p ∷ ps) h = (encode-Lacks p h.0, map-encode-Lacks ps h.1)

map_result-map-encode :
    (ps : List Packet) → All IsFramed ps → map_result decode_packet (map encode ps) ≡ ok ps
map_result-map-encode [] h = refl
map_result-map-encode (p ∷ ps) h = rw (decode_packet-encode p h.0.0, map_result-map-encode ps h.1)

encode-ne-nil : (p : Packet) → encode p ≢ []
unfolding encode
encode-ne-nil p h = ground arith

encode_payload-join_parts :
    (p : Packet) (ps : List Packet)
    → encode_payload (p ∷ ps) ≡ join_parts (map encode (p ∷ ps)) record_separator
unfolding encode_payload join_parts
encode_payload-join_parts p [] = refl
encode_payload-join_parts p (q ∷ ps) = refl

append-ne-nil : (s t : GoString) → s ≢ [] → s ++ t ≢ []
append-ne-nil [] t h e = h refl
append-ne-nil (c ∷ s) t h e = cc

join_parts-ne-nil :
    (s : GoString) (parts : List GoString) (sep : ℕ) → s ≢ [] → join_parts (s ∷ parts) sep ≢ []
unfolding join_parts
join_parts-ne-nil s [] sep h = h
join_parts-ne-nil s (q ∷ parts) sep h = append-ne-nil s _ h

decode_payload-split :
    (s : GoString) → s ≢ [] → decode_payload s ≡ map_result decode_packet (split s record_separator)
unfolding decode_payload
decode_payload-split [] h = absurd (h refl)
decode_payload-split (c ∷ s) h = refl

-- A payload of packets of the seven types, none with the separator byte 0x1e in its data, is
-- decoded to the same packets in the same order; the empty payload is one of them.
pub decode_payload-encode_payload :
    (ps : List Packet) → All IsFramed ps → decode_payload (encode_payload ps) ≡ ok ps
decode_payload-encode_payload [] h = unfold decode_payload encode_payload in refl
decode_payload-encode_payload (p ∷ ps) h =
    rw
      (
        encode_payload-join_parts p ps,
        decode_payload-split (join_parts (map encode (p ∷ ps)) record_separator)
            (join_parts-ne-nil (encode p) (map encode ps) record_separator (encode-ne-nil p)),
        split-join_parts (map encode (p ∷ ps)) record_separator (cc) (map-encode-Lacks (p ∷ ps) h),
      )
      (map_result-map-encode (p ∷ ps) h)

map-encode-map_result :
    (parts : List GoString) {ps : List Packet}
    → map_result decode_packet parts ≡ ok ps
    → map encode ps ≡ parts
map-encode-map_result [] h = ground arith
map-encode-map_result (s ∷ parts) {ps} h = elim (Result-cases (decode_packet s)) [
  | inr (e, bad) ↦ absurd (ground arith)
  | inl (p, good) ↦ elim (Result-cases (map_result decode_packet parts)) [
    | inr (e, bad) ↦ absurd (ground arith)
    | inl (qs, rest) ↦
        ground
          (arith, encode-decode_packet s {p = p} good, map-encode-map_result parts {ps = qs} rest)
  ]
]

encode_payload-map :
    (ps : List Packet) → encode_payload ps ≡ join_parts (map encode ps) record_separator
unfolding encode_payload join_parts
encode_payload-map [] = refl
encode_payload-map (p ∷ []) = refl
encode_payload-map (p ∷ q ∷ ps) = refl

-- What decodes to a list of packets is the encoding of that list.
pub encode_payload-decode_payload :
    (s : GoString) {ps : List Packet} → decode_payload s ≡ ok ps → encode_payload ps ≡ s
encode_payload-decode_payload [] {ps} h =
    let e : ps ≡ [] = unfold decode_payload in ground arith in rw e (unfold encode_payload in refl)
encode_payload-decode_payload (c ∷ s) {ps} h =
    rw
      (
        encode_payload-map ps,
        map-encode-map_result (split (c ∷ s) record_separator) {ps = ps}
            (unfold decode_payload in h),
      )
      (join_parts-split (c ∷ s) record_separator)
