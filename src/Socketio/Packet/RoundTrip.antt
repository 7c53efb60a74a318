-- ===== src/Socketio/Packet/RoundTrip.antt =====
-- Decode after Encode, of server/pkg/socketio/packet.go.
use hwarr.Base.{
  ℕ, ◌≤◌, ◌≡◌, ◌≢◌, refl, sym, GoString, [], ◌∷◌, ◌++◌, append_assoc, true, false, Option, none,
  some, ok, arith, Bool-cases, inl, inr, ◌⊎◌, ◌==◌, str_eq, str_iff, ltb, ap, ◌+◌, ◌-◌, ◌%◌,
}
use hwarr.Base.Split.{Lacks}
use hwarr.Base.Decimal.{
  ℤ, pos, negsuc, itoa, atoi, is_digit, IsDigits, itoa-IsDigits, itoa-ne-nil, atoi-itoa, max_int,
}
use hwarr.Socketio.Json.{JsonReader, check_json_depth}
use hwarr.Socketio.Packet.{
  Packet, is_binary, root, max_attachments, packet_binary_ack, cut_at, decode_attachments,
  span_digits, decode_digits, decode_id, decode_payload, decode_rest, decode_namespace, decode,
  encode_attachments, encode_namespace, encode_id, encode_payload, encode,
}

cut_at-append : (sep : ℕ) (p s : GoString) → Lacks sep p → cut_at sep (p ++ (sep ∷ s)) ≡ some (p, s)
unfolding cut_at
cut_at-append sep [] s h = ground arith
cut_at-append sep (c ∷ p) s h = ground (arith, cut_at-append sep p s h.1)

-- What may follow the digits of an id: nothing, or a byte that is no digit and no slash.
abbrev pub StartsPayload : GoString → Type 0
StartsPayload [] = Unit {0}
StartsPayload (c ∷ s) = (is_digit c ≡ false) × (c ≢ b'/')

span_digits-append : (p s : GoString) → IsDigits p → StartsPayload s → span_digits (p ++ s) ≡ (p, s)
unfolding span_digits
span_digits-append [] [] h n = refl
span_digits-append [] (c ∷ s) h n = rw n.0
span_digits-append (c ∷ p) s h n = rw (h.0, span_digits-append p s h.1 n)

digits-Lacks_dash : (s : GoString) → IsDigits s → Lacks b'-' s
digits-Lacks_dash [] h = tt
digits-Lacks_dash (c ∷ s) h = (ground arith, digits-Lacks_dash s h.1)

decode_attachments-encode_attachments :
    (p : Packet) (s : GoString)
    → p.attachments ≤ max_attachments
    → (is_binary p.type ≡ false → p.attachments ≡ 0)
    → decode_attachments p.type (encode_attachments p ++ s) ≡ ok (p.attachments, s)
unfolding decode_attachments encode_attachments
decode_attachments-encode_attachments p s h z = elim (Bool-cases (is_binary p.type)) [
  | inr plain ↦ rw (plain, z plain)
  | inl binary ↦
      let cut : cut_at b'-' ((itoa p.attachments ++ b'-' ∷ []) ++ s)
          ≡ some (itoa p.attachments, s) =
        rw (append_assoc (itoa p.attachments) (b'-' ∷ []) s) (
          cut_at-append b'-' (itoa p.attachments) s
            (digits-Lacks_dash (itoa p.attachments) (itoa-IsDigits p.attachments))) in
      ground (arith, cut, atoi-itoa p.attachments)
]

abbrev pub IsId : ℤ → Type 0
IsId (pos n) = n ≤ max_int
IsId (negsuc n) = n ≡ 0

decode_digits-ne-nil :
    (d s : GoString) {n : ℤ} → d ≢ [] → atoi d ≡ some n → decode_digits (d, s) ≡ ok (n, s)
unfolding decode_digits
decode_digits-ne-nil [] s h e = absurd (h refl)
decode_digits-ne-nil (c ∷ d) s h e = rw (e, decode_digits)

decode_id-encode_id :
    (id : ℤ) (s : GoString) → IsId id → StartsPayload s → decode_id (encode_id id ++ s) ≡ ok (id, s)
unfolding decode_id encode_id
decode_id-encode_id (pos n) s h start =
    rw (span_digits-append (itoa n) s (itoa-IsDigits n) start)
      (decode_digits-ne-nil (itoa n) s (itoa-ne-nil n) (atoi-itoa n h))
decode_id-encode_id (negsuc n) s h start = rw (span_digits-append [] s tt start, h)

encode_namespace-root :
    (namespace : GoString) → (namespace == root) ≡ true → encode_namespace namespace ≡ []
unfolding encode_namespace
encode_namespace-root namespace h = rw h

encode_namespace-path :
    (namespace n : GoString)
    → (namespace == root) ≡ false
    → namespace ≡ b'/' ∷ n
    → encode_namespace namespace ≡ (b'/' ∷ n) ++ b',' ∷ []
unfolding encode_namespace
encode_namespace-path namespace n other e = ground (arith, str_iff namespace [])

path_text : (n s : GoString) → ((b'/' ∷ n) ++ b',' ∷ []) ++ s ≡ b'/' ∷ (n ++ (b',' ∷ s))
path_text n s = ap (◌∷◌ b'/') (append_assoc n (b',' ∷ []) s)

with_namespace : (p : Packet) {n : GoString} → p.namespace ≡ n → record p { namespace = n } ≡ p
with_namespace p e = ap (λ n'. record p { namespace = n' }) (sym e)

module _ (json : JsonReader) where
  abbrev pub IsPayload : Option GoString → Type 0
  IsPayload none = Unit {0}
  IsPayload (some text) =
      (text ≢ [])
      × StartsPayload text
      × (check_json_depth json text ≡ none)
      × (json.valid text ≡ true)

  -- A packet that a client or the server can send: a type of the protocol, attachments only where
  -- the type is binary and at most 100, a namespace path without a comma, an id that fits an int
  -- or -1, and a payload that passes the JSON checks and begins with neither a digit nor a slash.
  pub record IsSendable (p : Packet) : Type 0 where
    pub typed : p.type ≤ packet_binary_ack
    pub counted : p.attachments ≤ max_attachments
    pub uncounted : is_binary p.type ≡ false → p.attachments ≡ 0
    pub path : (p.namespace ≡ root) ⊎ ((s : GoString) × (p.namespace ≡ b'/' ∷ s) × Lacks b',' s)
    pub acknowledged : IsId p.id
    pub carried : IsPayload p.payload
    pub uncollected : p.binary_payloads ≡ []

  decode_payload-encode_payload :
      (payload : Option GoString)
      → IsPayload payload
      → decode_payload json (encode_payload payload) ≡ ok payload
  unfolding decode_payload encode_payload
  decode_payload-encode_payload none h = refl
  decode_payload-encode_payload (some []) h = absurd (h.0 refl)
  decode_payload-encode_payload (some (c ∷ s)) h = ground arith

  encode_payload-StartsPayload :
      (payload : Option GoString) → IsPayload payload → StartsPayload (encode_payload payload)
  unfolding encode_payload
  encode_payload-StartsPayload none h = tt
  encode_payload-StartsPayload (some text) h = h.1

  -- The text of the id and the payload.
  abbrev tail_text : Packet → GoString
  tail_text p = encode_id p.id ++ encode_payload p.payload

  decode_rest-tail_text :
      (p : Packet) (namespace : GoString)
      → IsSendable p
      → decode_rest json p.type p.attachments namespace (tail_text p)
        ≡ ok (record p { namespace = namespace })
  unfolding decode_rest
  decode_rest-tail_text p namespace h = rw (
    decode_id-encode_id p.id (encode_payload p.payload) h.acknowledged
        (encode_payload-StartsPayload p.payload h.carried),
    decode_payload-encode_payload p.payload h.carried,
    h.uncollected,
  )

  abbrev NoSlash : GoString → Type 0
  NoSlash [] = Unit {0}
  NoSlash (c ∷ s) = c ≢ b'/'

  append-NoSlash : (d s : GoString) → IsDigits d → StartsPayload s → NoSlash (d ++ s)
  append-NoSlash [] [] h start = tt
  append-NoSlash [] (c ∷ s) h start = start.1
  append-NoSlash (c ∷ d) s h start = ground arith

  tail_text-NoSlash : (p : Packet) → IsSendable p → NoSlash (tail_text p)
  unfolding encode_id
  tail_text-NoSlash p h = id-NoSlash p.id
    where
      id-NoSlash : (id : ℤ) → NoSlash (encode_id id ++ encode_payload p.payload)
      id-NoSlash (pos n) =
          append-NoSlash (itoa n) (encode_payload p.payload) (itoa-IsDigits n)
            (encode_payload-StartsPayload p.payload h.carried)
      id-NoSlash (negsuc n) =
          append-NoSlash [] (encode_payload p.payload) tt
            (encode_payload-StartsPayload p.payload h.carried)

  decode_namespace-root :
      (type attachments : ℕ) (s : GoString)
      → NoSlash s
      → decode_namespace json type attachments s ≡ decode_rest json type attachments root s
  unfolding decode_namespace
  decode_namespace-root type attachments [] h = refl
  decode_namespace-root type attachments (c ∷ s) h = ground arith

  decode_namespace-path :
      (type attachments : ℕ) (n s : GoString)
      → Lacks b',' n
      → decode_namespace json type attachments (b'/' ∷ (n ++ (b',' ∷ s)))
        ≡ decode_rest json type attachments (b'/' ∷ n) s
  unfolding decode_namespace
  decode_namespace-path type attachments n s h =
      ground (arith, cut_at-append b',' (b'/' ∷ n) s (omega arith, h))

  decode_namespace-encode :
      (p : Packet)
      → IsSendable p
      → decode_namespace json p.type p.attachments (encode_namespace p.namespace ++ tail_text p)
        ≡ ok p
  decode_namespace-encode p h = elim (Bool-cases (p.namespace == root)) [
    | inl default ↦
        let e : p.namespace ≡ root = (str_iff p.namespace root).0 default in
        rw
          (
            encode_namespace-root p.namespace default,
            decode_namespace-root p.type p.attachments (tail_text p) (tail_text-NoSlash p h),
            decode_rest-tail_text p root h,
          )
          (ap ok (with_namespace p e))
    | inr other ↦ elim h.path [
      | inl e ↦ absurd (ground (arith, str_iff p.namespace root))
      | inr (n, e, lacks) ↦
          rw
            (
              encode_namespace-path p.namespace n other e,
              path_text n (tail_text p),
              decode_namespace-path p.type p.attachments n (tail_text p) lacks,
              decode_rest-tail_text p (b'/' ∷ n) h,
            )
            (ap ok (with_namespace p e))
    ]
  ]

  -- Decode gives back every sendable packet from the text that Encode makes of it: a type of the
  -- protocol, attachments only where the type is binary and at most 100, a namespace path without
  -- a comma, an id that fits an int or -1, and a payload that passes the JSON checks and begins
  -- with neither a digit nor a slash.
  pub decode-encode : (p : Packet) → IsSendable p → decode json (encode p) ≡ ok p
  unfolding decode encode
  decode-encode p h =
      let type_byte : (((b'0' + p.type) % 256) + 256 - b'0') % 256 ≡ p.type =
        omega (arith, h.typed) in
      let in_range : ltb packet_binary_ack p.type ≡ false = ground (arith, h.typed) in
      rw
        (
          type_byte,
          in_range,
          decode_attachments-encode_attachments p (encode_namespace p.namespace ++ tail_text p)
              h.counted h.uncounted,
        )
        (decode_namespace-encode p h)
