-- ===== src/Socketio/Packet/Binary/Detection.antt =====
-- hasBinaryValue against the buffers that deconstructNode finds.
use hwarr.Base.{
  ◌≡◌, refl, GoString, List, [], ◌∷◌, ◌++◌, Bool, true, false, ◌||◌, not, arith, ap, ◌∙◌,
}
use hwarr.Socketio.Packet.Binary.{
  Node, null, bool, int, float, text, bytes, arr, obj, Items, nil, cons, Fields, end, field,
  deconstruct_node, deconstruct_items, deconstruct_fields, has_binary_value, has_binary_items,
  has_binary_fields,
}
use hwarr.Socketio.Packet.Binary.Widen.{collected, collected_items, collected_fields}

abbrev is_nil : List GoString → Bool
is_nil [] = true
is_nil (b ∷ bs) = false

is_nil-append :
    (xs ys : List GoString) → not (is_nil (xs ++ ys)) ≡ (not (is_nil xs) || not (is_nil ys))
is_nil-append [] ys = refl
is_nil-append (x ∷ xs) ys = refl

left-eq-false : (a b : Bool) → (a || b) ≡ false → a ≡ false
left-eq-false a b h = ground arith

right-eq-false : (a b : Bool) → (a || b) ≡ false → b ≡ false
right-eq-false a b h = ground arith

module _ {F : Type 0} where
  mutual
    unfolding collected has_binary_value

    pub has_binary_value-collected : (t : Node F) → has_binary_value t ≡ not (is_nil (collected t))
    has_binary_value-collected null = refl
    has_binary_value-collected (bool b) = refl
    has_binary_value-collected (int n) = refl
    has_binary_value-collected (float x) = refl
    has_binary_value-collected (text s) = refl
    has_binary_value-collected (bytes b) = refl
    has_binary_value-collected (arr xs) = has_binary_items-collected xs
    has_binary_value-collected (obj fs) = has_binary_fields-collected fs

    pub has_binary_items-collected :
        (t : Items F) → has_binary_items t ≡ not (is_nil (collected_items t))
    has_binary_items-collected nil = refl
    has_binary_items-collected (cons x xs) = rw (
      has_binary_value-collected x,
      has_binary_items-collected xs,
      is_nil-append (collected x) (collected_items xs),
    )

    pub has_binary_fields-collected :
        (t : Fields F) → has_binary_fields t ≡ not (is_nil (collected_fields t))
    has_binary_fields-collected end = refl
    has_binary_fields-collected (field k v fs) = rw (
      has_binary_value-collected v,
      has_binary_fields-collected fs,
      is_nil-append (collected v) (collected_fields fs),
    )

  mutual
    unfolding deconstruct_node has_binary_value

    pub deconstruct_node-plain :
        (t : Node F) (bs : List GoString)
        → has_binary_value t ≡ false
        → deconstruct_node t bs ≡ (t, bs)
    deconstruct_node-plain null bs h = refl
    deconstruct_node-plain (bool b) bs h = refl
    deconstruct_node-plain (int n) bs h = refl
    deconstruct_node-plain (float x) bs h = refl
    deconstruct_node-plain (text s) bs h = refl
    deconstruct_node-plain (bytes b) bs h = cc
    deconstruct_node-plain (arr xs) bs h =
        ap (λ r. (arr r.0, r.1)) (deconstruct_items-plain xs bs h)
    deconstruct_node-plain (obj fs) bs h =
        ap (λ r. (obj r.0, r.1)) (deconstruct_fields-plain fs bs h)

    deconstruct_items-plain :
        (t : Items F) (bs : List GoString)
        → has_binary_items t ≡ false
        → deconstruct_items t bs ≡ (t, bs)
    deconstruct_items-plain nil bs h = refl
    deconstruct_items-plain (cons x xs) bs h =
        ap (λ r. let s = deconstruct_items xs r.1 in (cons r.0 s.0, s.1))
          (deconstruct_node-plain x bs (left-eq-false _ _ h))
        ∙ ap (λ s. (cons x s.0, s.1)) (deconstruct_items-plain xs bs (right-eq-false _ _ h))

    deconstruct_fields-plain :
        (t : Fields F) (bs : List GoString)
        → has_binary_fields t ≡ false
        → deconstruct_fields t bs ≡ (t, bs)
    deconstruct_fields-plain end bs h = refl
    deconstruct_fields-plain (field k v fs) bs h =
        ap (λ r. let s = deconstruct_fields fs r.1 in (field k r.0 s.0, s.1))
          (deconstruct_node-plain v bs (left-eq-false _ _ h))
        ∙ ap (λ s. (field k v s.0, s.1)) (deconstruct_fields-plain fs bs (right-eq-false _ _ h))
