-- ===== src/Socketio/Json.antt =====
-- The JSON text that the Socket.IO packets carry. encoding/json enters as `JsonReader`: whether a
-- text is valid, and the tokens that a decoder reads from it. checkJSONDepth of
-- server/pkg/socketio/packet.go is modelled over those tokens.
mod Examples
use hwarr.Base.{
  ℕ, ◌+◌, ◌-◌, ◌≤◌, GoString, Bool, true, false, ltb, if◌then◌else◌, Option, none, some, ◌≡◌, refl,
  ◌↔◌, arith, max, Bool-cases, inl, inr,
}

pub data Token : Type 0 where
  open_delim close_delim scalar : Token

-- What Decoder.Token returns, call after call: tokens, then io.EOF or another error.
pub data TokenStream : Type 0 where
  eof : TokenStream
  bad : TokenStream
  token : Token → TokenStream → TokenStream

pub record JsonReader : Type 0 where
  pub valid : GoString → Bool
  pub tokens : GoString → TokenStream

pub data DepthError : Type 0 where
  too_deep bad_token : DepthError

abbrev pub max_json_depth : ℕ
max_json_depth = 32

-- The loop of checkJSONDepth. A decoder refuses a closing delimiter that closes nothing, so the
-- depth is never taken below 0.
unfoldable pub check_depth_from : ℕ → TokenStream → Option DepthError
check_depth_from depth eof = none
check_depth_from depth bad = some bad_token
check_depth_from depth (token open_delim rest) =
    let deeper = check_depth_from (depth + 1) rest in
    if ltb max_json_depth (depth + 1) then some too_deep else deeper
check_depth_from depth (token close_delim rest) = check_depth_from (depth - 1) rest
check_depth_from depth (token scalar rest) = check_depth_from depth rest

module _ (json : JsonReader) where
  -- `none` is the nil error
  unfoldable pub check_json_depth : GoString → Option DepthError
  unfolding check_depth_from
  check_json_depth text = check_depth_from 0 (json.tokens text)

-- The deepest nesting that a stream reaches from a given depth.
abbrev pub peak : ℕ → TokenStream → ℕ
peak depth eof = depth
peak depth bad = depth
peak depth (token open_delim rest) = max depth (peak (depth + 1) rest)
peak depth (token close_delim rest) = max depth (peak (depth - 1) rest)
peak depth (token scalar rest) = peak depth rest

abbrev pub ends_well : TokenStream → Bool
ends_well eof = true
ends_well bad = false
ends_well (token t rest) = ends_well rest

peak-ge : (depth : ℕ) (s : TokenStream) → depth ≤ peak depth s
peak-ge depth eof = omega arith
peak-ge depth bad = omega arith
peak-ge depth (token open_delim rest) = omega arith
peak-ge depth (token close_delim rest) = omega arith
peak-ge depth (token scalar rest) = peak-ge depth rest

check_depth_from-peak :
    (depth : ℕ) (s : TokenStream)
    → depth ≤ max_json_depth
    → (check_depth_from depth s ≡ none) ↔ ((ends_well s ≡ true) × (peak depth s ≤ max_json_depth))
unfolding check_depth_from
check_depth_from-peak depth eof h = ((λ _. (refl, h)), (λ _. refl))
check_depth_from-peak depth bad h = ((λ e. absurd (ground arith)), (λ p. absurd (ground arith)))
check_depth_from-peak depth (token open_delim rest) h =
    elim (Bool-cases (ltb max_json_depth (depth + 1))) [
      | inl deep ↦
          rw deep ((λ e. absurd (cc)), (λ p. absurd (ground (arith, peak-ge (depth + 1) rest))))
      | inr fits ↦
          let r : (check_depth_from (depth + 1) rest ≡ none)
              ↔ ((ends_well rest ≡ true) × (peak (depth + 1) rest ≤ max_json_depth)) =
            check_depth_from-peak (depth + 1) rest (ground arith) in
          rw fits ((λ e. ((r.0 e).0, omega (arith, (r.0 e).1))), (λ p. r.1 (p.0, omega arith)))
    ]
check_depth_from-peak depth (token close_delim rest) h =
    let r : (check_depth_from (depth - 1) rest ≡ none)
        ↔ ((ends_well rest ≡ true) × (peak (depth - 1) rest ≤ max_json_depth)) =
      check_depth_from-peak (depth - 1) rest (omega arith) in
    ((λ e. ((r.0 e).0, omega (arith, (r.0 e).1))), (λ p. r.1 (p.0, omega arith)))
check_depth_from-peak depth (token scalar rest) h = check_depth_from-peak depth rest h

-- The depth check passes exactly the texts whose tokens end without an error and never nest
-- deeper than 32.
pub check_json_depth-peak :
    (json : JsonReader) (text : GoString)
    → (check_json_depth json text ≡ none)
      ↔ ((ends_well (json.tokens text) ≡ true) × (peak 0 (json.tokens text) ≤ max_json_depth))
unfolding check_json_depth
check_json_depth-peak json text = check_depth_from-peak 0 (json.tokens text) (omega arith)
