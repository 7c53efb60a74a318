-- ===== src/Socketio/Packet/Bounds.antt =====
-- The limits of the protocol on what Decode gives, server/pkg/socketio/packet.go.
use hwarr.Base.{
  ℕ, ◌≤◌, ◌≡◌, GoString, [], ◌∷◌, ok, arith, Bool-cases, inl, inr, ltb, if◌then◌else◌, Option-cases,
  Result-cases, nat_beq, ◌+◌, ◌-◌, ◌%◌,
}
use hwarr.Socketio.Json.{JsonReader}
use hwarr.Socketio.Packet.{
  Packet, is_binary, max_attachments, packet_binary_ack, cut_at, decode_attachments, decode_rest,
  decode_namespace, decode, root,
}

-- One of the seven types, at most a hundred attachments and none where the type is not binary,
-- and no buffer collected yet.
pub record IsBounded (p : Packet) : Type 0 where
  pub typed : p.type ≤ packet_binary_ack
  pub counted : p.attachments ≤ (if is_binary p.type then max_attachments else 0)
  pub uncollected : p.binary_payloads ≡ []

decode_attachments_bounds :
    (type : ℕ) (s : GoString) {n : ℕ} {rest : GoString}
    → decode_attachments type s ≡ ok (n, rest)
    → n ≤ (if is_binary type then max_attachments else 0)
unfolding decode_attachments
decode_attachments_bounds type s h = ground arith

module _ (json : JsonReader) where
  decode_rest_fields :
      (type attachments : ℕ) (namespace s : GoString) {p : Packet}
      → decode_rest json type attachments namespace s ≡ ok p
      → (p.type ≡ type) × (p.attachments ≡ attachments) × (p.binary_payloads ≡ [])
  unfolding decode_rest
  decode_rest_fields type attachments namespace s h = ground arith

  decode_namespace_fields :
      (type attachments : ℕ) (s : GoString) {p : Packet}
      → decode_namespace json type attachments s ≡ ok p
      → (p.type ≡ type) × (p.attachments ≡ attachments) × (p.binary_payloads ≡ [])
  unfolding decode_namespace
  decode_namespace_fields type attachments [] {p} h =
      decode_rest_fields type attachments root [] {p = p} h
  decode_namespace_fields type attachments (c ∷ s) {p} h = elim (Bool-cases (nat_beq c b'/')) [
    | inr plain ↦ decode_rest_fields type attachments root (c ∷ s) {p = p} (ground arith)
    | inl slash ↦ elim (Option-cases (cut_at b',' (c ∷ s))) [
      | inl uncut ↦ ground arith
      | inr ((namespace, rest), cut) ↦
          decode_rest_fields type attachments namespace rest {p = p} (ground arith)
    ]
  ]

  -- A packet that Decode accepts has one of the seven types, at most 100 attachments and none
  -- unless its type is binary, and no collected buffer.
  pub decode-IsBounded : (s : GoString) {p : Packet} → decode json s ≡ ok p → IsBounded p
  unfolding decode
  decode-IsBounded [] h = absurd (ground arith)
  decode-IsBounded (c ∷ s) {p} h =
      let type = (c + 256 - b'0') % 256 in
      elim (Bool-cases (ltb packet_binary_ack type)) [
        | inl out ↦ absurd (ground arith)
        | inr typed ↦ elim (Result-cases (decode_attachments type s)) [
          | inr (e, bad) ↦ absurd (ground arith)
          | inl ((n, rest), good) ↦
              let b : n ≤ (if is_binary type then max_attachments else 0) =
                decode_attachments_bounds type s good in
              let f : (p.type ≡ type) × (p.attachments ≡ n) × (p.binary_payloads ≡ []) =
                decode_namespace_fields type n rest {p = p} (ground arith) in
              record { typed = ground arith; counted = rw (f.0, f.1) b; uncollected = f.2 }
        ]
      ]
