-- ===== src/Socketio/Packet/Binary/Widen.antt =====
-- What deconstructNode leaves of a tree. Between deconstruction and reconstruction a tree goes
-- through encoding/json, which reads back every int as a float64; `widen` is that change.
use hwarr.Base.{
  ◌≡◌, refl, GoString, List, [], ◌∷◌, ◌++◌, append_assoc, append-nil, Bool, false, ◌||◌, some, ◌==◌,
  str_eq, Bool-cases, inl, inr, is_some, ap, sym, ◌∙◌,
}
use hwarr.Socketio.Packet.Binary.{
  Node, null, bool, int, float, text, bytes, arr, obj, Items, nil, cons, Fields, end, field, Floats,
  field_of, is_true, as_float, placeholder_key, num_key, is_placeholder, deconstruct_node,
  deconstruct_items, deconstruct_fields,
}

module _ {F : Type 0} where
  -- The binary values of a tree, in the order of the walk.
  unfoldable mutual
    pub collected : Node F → List GoString
    collected null = []
    collected (bool b) = []
    collected (int n) = []
    collected (float x) = []
    collected (text s) = []
    collected (bytes b) = b ∷ []
    collected (arr xs) = collected_items xs
    collected (obj fs) = collected_fields fs

    pub collected_items : Items F → List GoString
    collected_items nil = []
    collected_items (cons x xs) = collected x ++ collected_items xs

    pub collected_fields : Fields F → List GoString
    collected_fields end = []
    collected_fields (field k v fs) = collected v ++ collected_fields fs

  mutual
    unfolding deconstruct_node collected

    pub deconstruct_node-collected :
        (t : Node F) (bs : List GoString) → (deconstruct_node t bs).1 ≡ bs ++ collected t
    deconstruct_node-collected null bs = sym (append-nil bs)
    deconstruct_node-collected (bool b) bs = sym (append-nil bs)
    deconstruct_node-collected (int n) bs = sym (append-nil bs)
    deconstruct_node-collected (float x) bs = sym (append-nil bs)
    deconstruct_node-collected (text s) bs = sym (append-nil bs)
    deconstruct_node-collected (bytes b) bs = refl
    deconstruct_node-collected (arr xs) bs = deconstruct_items-collected xs bs
    deconstruct_node-collected (obj fs) bs = deconstruct_fields-collected fs bs

    pub deconstruct_items-collected :
        (t : Items F) (bs : List GoString) → (deconstruct_items t bs).1 ≡ bs ++ collected_items t
    deconstruct_items-collected nil bs = sym (append-nil bs)
    deconstruct_items-collected (cons x xs) bs =
        deconstruct_items-collected xs (deconstruct_node x bs).1
        ∙ ap (λ l. l ++ collected_items xs) (deconstruct_node-collected x bs)
        ∙ append_assoc bs (collected x) (collected_items xs)

    pub deconstruct_fields-collected :
        (t : Fields F) (bs : List GoString) → (deconstruct_fields t bs).1 ≡ bs ++ collected_fields t
    deconstruct_fields-collected end bs = sym (append-nil bs)
    deconstruct_fields-collected (field k v fs) bs =
        deconstruct_fields-collected fs (deconstruct_node v bs).1
        ∙ ap (λ l. l ++ collected_fields fs) (deconstruct_node-collected v bs)
        ∙ append_assoc bs (collected v) (collected_fields fs)

module _ {F : Type 0} (floats : Floats F) where
  unfoldable mutual
    pub widen : Node F → Node F
    widen null = null
    widen (bool b) = bool b
    widen (int n) = float (floats.float_of n)
    widen (float x) = float x
    widen (text s) = text s
    widen (bytes b) = bytes b
    widen (arr xs) = arr (widen_items xs)
    widen (obj fs) = obj (widen_fields fs)

    pub widen_items : Items F → Items F
    widen_items nil = nil
    widen_items (cons x xs) = cons (widen x) (widen_items xs)

    pub widen_fields : Fields F → Fields F
    widen_fields end = end
    widen_fields (field k v fs) = field k (widen v) (widen_fields fs)

  -- An object of the tree looks like a placeholder.
  unfoldable mutual
    unfolding is_placeholder

    pub has_placeholder : Node F → Bool
    has_placeholder null = false
    has_placeholder (bool b) = false
    has_placeholder (int n) = false
    has_placeholder (float x) = false
    has_placeholder (text s) = false
    has_placeholder (bytes b) = false
    has_placeholder (arr xs) = has_placeholder_items xs
    has_placeholder (obj fs) = is_some (is_placeholder floats fs) || has_placeholder_fields fs

    pub has_placeholder_items : Items F → Bool
    has_placeholder_items nil = false
    has_placeholder_items (cons x xs) = has_placeholder x || has_placeholder_items xs

    pub has_placeholder_fields : Fields F → Bool
    has_placeholder_fields end = false
    has_placeholder_fields (field k v fs) = has_placeholder v || has_placeholder_fields fs

  is_true-deconstruct :
      (v : Node F) (bs : List GoString)
      → is_true (some (widen (deconstruct_node v bs).0)) ≡ is_true (some (widen v))
  unfolding widen deconstruct_node
  is_true-deconstruct null bs = refl
  is_true-deconstruct (bool b) bs = refl
  is_true-deconstruct _ bs = refl

  as_float-deconstruct :
      (v : Node F) (bs : List GoString)
      → as_float (some (widen (deconstruct_node v bs).0)) ≡ as_float (some (widen v))
  unfolding widen deconstruct_node
  as_float-deconstruct null bs = refl
  as_float-deconstruct _ bs = refl

  is_true-field_of :
      (k : GoString) (fs : Fields F) (bs : List GoString)
      → is_true (field_of k (widen_fields (deconstruct_fields fs bs).0))
        ≡ is_true (field_of k (widen_fields fs))
  unfolding widen deconstruct_node field_of
  is_true-field_of k end bs = refl
  is_true-field_of k (field j v fs) bs = elim (Bool-cases (j == k)) [
    | inl here ↦ rw here (is_true-deconstruct v bs)
    | inr there ↦ rw there (is_true-field_of k fs (deconstruct_node v bs).1)
  ]

  as_float-field_of :
      (k : GoString) (fs : Fields F) (bs : List GoString)
      → as_float (field_of k (widen_fields (deconstruct_fields fs bs).0))
        ≡ as_float (field_of k (widen_fields fs))
  unfolding widen deconstruct_node field_of
  as_float-field_of k end bs = refl
  as_float-field_of k (field j v fs) bs = elim (Bool-cases (j == k)) [
    | inl here ↦ rw here (as_float-deconstruct v bs)
    | inr there ↦ rw there (as_float-field_of k fs (deconstruct_node v bs).1)
  ]

  pub is_placeholder-deconstruct :
      (fs : Fields F) (bs : List GoString)
      → is_placeholder floats (widen_fields (deconstruct_fields fs bs).0)
        ≡ is_placeholder floats (widen_fields fs)
  unfolding is_placeholder
  is_placeholder-deconstruct fs bs =
      rw (is_true-field_of placeholder_key fs bs, as_float-field_of num_key fs bs)
