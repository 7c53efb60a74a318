-- ===== src/Socketio/Packet/Binary.antt =====
-- Binary values in the trees that server/pkg/socketio/packet.go walks: deconstructNode,
-- reconstructNode, isPlaceholder and hasBinaryValue. A tree is Go's `interface{}` as encoding/json
-- fills it, with `[]byte` and `int` beside: deconstructNode writes an int, and a decoded number is a
-- float64, which is a type `F` here with Go's two conversions. A map is a list of fields.
pub mod Widen
pub mod RoundTrip
pub mod Detection
use hwarr.Base.{
  ℕ, suc, zero, GoString, List, [], ◌∷◌, ◌++◌, Bool, true, false, ◌||◌, Option, none, some, length,
  if◌then◌else◌, ◌==◌, str_eq, codes,
}
use hwarr.Base.Decimal.{ℤ, pos, negsuc}

mutual
  pub data Node (F : Type 0) : Type 0 where
    null : Node F
    bool : Bool → Node F
    int : ℤ → Node F
    float : F → Node F
    text : GoString → Node F
    bytes : GoString → Node F
    arr : Items F → Node F
    obj : Fields F → Node F

  pub data Items (F : Type 0) : Type 0 where
    nil : Items F
    cons : Node F → Items F → Items F

  pub data Fields (F : Type 0) : Type 0 where
    end : Fields F
    field : GoString → Node F → Fields F → Fields F

abbrev pub placeholder_key : GoString
placeholder_key = codes "_placeholder"

abbrev pub num_key : GoString
num_key = codes "num"

-- buf[i], in range
abbrev pub get_elem? {ℓ} : {A : Type ℓ} → List A → ℕ → Option A
get_elem? [] i = none
get_elem? (x ∷ xs) zero = some x
get_elem? (x ∷ xs) (suc i) = get_elem? xs i

module _ {F : Type 0} where
  unfoldable pub field_of : GoString → Fields F → Option (Node F)
  field_of k end = none
  field_of k (field j v fs) = if j == k then some v else field_of k fs

  -- phBool, ok := ph.(bool), and its value
  abbrev pub is_true : Option (Node F) → Bool
  is_true (some (bool true)) = true
  is_true _ = false

  -- numFloat, ok := num.(float64)
  abbrev pub as_float : Option (Node F) → Option F
  as_float (some (float x)) = some x
  as_float _ = none

  -- map[string]interface{}{"_placeholder": true, "num": idx}
  abbrev pub placeholder : ℕ → Node F
  placeholder index = obj (field placeholder_key (bool true) (field num_key (int (pos index)) end))

-- Go's conversion from float64 to int, and the float64 that encoding/json reads for an int.
pub record Floats (F : Type 0) : Type 0 where
  pub int_of : F → ℤ
  pub float_of : ℤ → F

module _ {F : Type 0} (floats : Floats F) where
  unfoldable pub is_placeholder : Fields F → Option ℤ
  unfolding field_of
  is_placeholder fs =
      if is_true (field_of placeholder_key fs)
      then elim (as_float (field_of num_key fs)) [ none ↦ none | some x ↦ some (floats.int_of x) ]
      else none

  abbrev pub attachment : List GoString → ℤ → Option GoString
  attachment buffers (pos i) = get_elem? buffers i
  attachment buffers (negsuc i) = none

  -- A placeholder out of range stays as it is; its fields are not walked.
  abbrev pub replace_placeholder : List GoString → Fields F → Option ℤ → Fields F → Node F
  replace_placeholder buffers fs none walked = obj walked
  replace_placeholder buffers fs (some i) walked = elim (attachment buffers i) [
    | none ↦ obj fs
    | some b ↦ bytes b
  ]

  unfoldable mutual
    unfolding is_placeholder

    pub reconstruct_node : Node F → List GoString → Node F
    reconstruct_node null buffers = null
    reconstruct_node (bool b) buffers = bool b
    reconstruct_node (int n) buffers = int n
    reconstruct_node (float x) buffers = float x
    reconstruct_node (text s) buffers = text s
    reconstruct_node (bytes b) buffers = bytes b
    reconstruct_node (arr xs) buffers = arr (reconstruct_items xs buffers)
    reconstruct_node (obj fs) buffers =
        replace_placeholder buffers fs (is_placeholder fs) (reconstruct_fields fs buffers)

    pub reconstruct_items : Items F → List GoString → Items F
    reconstruct_items nil buffers = nil
    reconstruct_items (cons x xs) buffers =
        cons (reconstruct_node x buffers) (reconstruct_items xs buffers)

    pub reconstruct_fields : Fields F → List GoString → Fields F
    reconstruct_fields end buffers = end
    reconstruct_fields (field k v fs) buffers =
        field k (reconstruct_node v buffers) (reconstruct_fields fs buffers)

module _ {F : Type 0} where
  -- The node with placeholders for its binary values, and the buffers with those values behind.
  unfoldable mutual
    pub deconstruct_node : Node F → List GoString → Node F × List GoString
    deconstruct_node null buffers = (null, buffers)
    deconstruct_node (bool b) buffers = (bool b, buffers)
    deconstruct_node (int n) buffers = (int n, buffers)
    deconstruct_node (float x) buffers = (float x, buffers)
    deconstruct_node (text s) buffers = (text s, buffers)
    deconstruct_node (bytes b) buffers = (placeholder (length buffers), buffers ++ b ∷ [])
    deconstruct_node (arr xs) buffers =
        let (xs', buffers') = deconstruct_items xs buffers in (arr xs', buffers')
    deconstruct_node (obj fs) buffers =
        let (fs', buffers') = deconstruct_fields fs buffers in (obj fs', buffers')

    pub deconstruct_items : Items F → List GoString → Items F × List GoString
    deconstruct_items nil buffers = (nil, buffers)
    deconstruct_items (cons x xs) buffers =
        let (x', buffers') = deconstruct_node x buffers in
        let (xs', buffers'') = deconstruct_items xs buffers' in (cons x' xs', buffers'')

    pub deconstruct_fields : Fields F → List GoString → Fields F × List GoString
    deconstruct_fields end buffers = (end, buffers)
    deconstruct_fields (field k v fs) buffers =
        let (v', buffers') = deconstruct_node v buffers in
        let (fs', buffers'') = deconstruct_fields fs buffers' in (field k v' fs', buffers'')

  unfoldable mutual
    pub has_binary_value : Node F → Bool
    has_binary_value null = false
    has_binary_value (bool b) = false
    has_binary_value (int n) = false
    has_binary_value (float x) = false
    has_binary_value (text s) = false
    has_binary_value (bytes b) = true
    has_binary_value (arr xs) = has_binary_items xs
    has_binary_value (obj fs) = has_binary_fields fs

    pub has_binary_items : Items F → Bool
    has_binary_items nil = false
    has_binary_items (cons x xs) = has_binary_value x || has_binary_items xs

    pub has_binary_fields : Fields F → Bool
    has_binary_fields end = false
    has_binary_fields (field k v fs) = has_binary_value v || has_binary_fields fs

  unfoldable pub contains_binary : List (Node F) → Bool
  unfolding has_binary_value
  contains_binary [] = false
  contains_binary (x ∷ xs) = has_binary_value x || contains_binary xs
