-- ===== src/Socketio/Packet/Binary/RoundTrip.antt =====
-- Reconstruction from the collected buffers after deconstruction, through encoding/json.
use hwarr.Base.{
  ℕ, ◌+◌, ◌≤◌, ◌^◌, ◌≡◌, refl, GoString, List, [], ◌∷◌, ◌++◌, append_assoc, append-nil, Bool, true,
  false, ◌||◌, Option, none, some, length, length-append, arith, ap, ap₂, sym, ◌∙◌, is_some,
  str_beq,
}
use hwarr.Base.Decimal.{ℤ, pos}
use hwarr.Socketio.Packet.Binary.{
  Node, null, bool, int, float, text, bytes, arr, obj, Items, nil, cons, Fields, end, field, Floats,
  field_of, placeholder, placeholder_key, num_key, is_placeholder, get_elem?, replace_placeholder,
  reconstruct_node, reconstruct_items, reconstruct_fields, deconstruct_node, deconstruct_items,
  deconstruct_fields,
}
use hwarr.Socketio.Packet.Binary.Widen.{
  collected, collected_items, collected_fields, widen, widen_items, widen_fields, has_placeholder,
  has_placeholder_items, has_placeholder_fields, deconstruct_node-collected,
  is_placeholder-deconstruct,
}

get_elem?-append {ℓ} :
    {A : Type ℓ} (xs ys : List A) (a : A) → get_elem? (xs ++ (a ∷ ys)) (length xs) ≡ some a
get_elem?-append [] ys a = refl
get_elem?-append (x ∷ xs) ys a = get_elem?-append xs ys a

-- The buffers behind the first part of a pair of walks.
shift :
    (bs c d rest bs' : List GoString)
    → bs' ≡ bs ++ c
    → bs ++ ((c ++ d) ++ rest) ≡ bs' ++ (d ++ rest)
shift bs c d rest bs' e = rw e (simp append_assoc)

shift_fits :
    (bs c d bs' : List GoString) (n : ℕ)
    → bs' ≡ bs ++ c
    → length bs + length (c ++ d) ≤ n
    → length bs' + length d ≤ n
shift_fits bs c d bs' n e h = omega (arith, ap length e, length-append bs c, length-append c d, h)

first_fits :
    (bs c d : List GoString) (n : ℕ) → length bs + length (c ++ d) ≤ n → length bs + length c ≤ n
first_fits bs c d n h = omega (arith, length-append c d, h)

or-eq-false : (a b : Bool) → (a || b) ≡ false → (a ≡ false) × (b ≡ false)
or-eq-false a b h = ground arith

none-of-is_some {ℓ} : {A : Type ℓ} (o : Option A) → is_some o ≡ false → o ≡ none
none-of-is_some none h = refl
none-of-is_some (some a) h = cc

module _ {F : Type 0} (floats : Floats F) where
  -- A float64 holds every int of up to 53 bits exactly.
  abbrev pub IsExact : Type 0
  IsExact = (n : ℕ) → n ≤ 2 ^ 53 → floats.int_of (floats.float_of (pos n)) ≡ pos n

  replace_placeholder-some :
      (bs : List GoString) (fs : Fields F) (walked : Fields F) (i : ℕ) (j : ℤ) (b : GoString)
      → j ≡ pos i
      → get_elem? bs i ≡ some b
      → replace_placeholder floats bs fs (some j) walked ≡ bytes b
  replace_placeholder-some bs fs walked i j b e h = ground arith

  reconstruct_node-placeholder :
      (bs : List GoString) (b : GoString) (rest : List GoString)
      → IsExact
      → length bs ≤ 2 ^ 53
      → reconstruct_node floats (widen floats (placeholder (length bs))) (bs ++ (b ∷ rest))
        ≡ bytes b
  unfolding reconstruct_node widen field_of str_beq
  reconstruct_node-placeholder bs b rest exact fits =
      let num = floats.float_of (pos (length bs)) in
      let fs : Fields F = field placeholder_key (bool true) (field num_key (float num) end) in
      replace_placeholder-some (bs ++ (b ∷ rest)) fs fs (length bs)
        (floats.int_of (floats.float_of (pos (length bs)))) b (exact (length bs) fits)
        (get_elem?-append bs rest b)

  reconstruct_node-obj :
      (fs : Fields F) (bs : List GoString)
      → is_placeholder floats fs ≡ none
      → reconstruct_node floats (obj fs) bs ≡ obj (reconstruct_fields floats fs bs)
  unfolding reconstruct_node
  reconstruct_node-obj fs bs h =
      ap (λ o. replace_placeholder floats bs fs o (reconstruct_fields floats fs bs)) h

  has_placeholder-obj :
      (fs : Fields F)
      → has_placeholder floats (obj fs) ≡ false
      → (is_placeholder floats fs ≡ none) × (has_placeholder_fields floats fs ≡ false)
  unfolding has_placeholder
  has_placeholder-obj fs h =
      let (i, r) =
        or-eq-false (is_some (is_placeholder floats fs)) (has_placeholder_fields floats fs) h in
      (none-of-is_some (is_placeholder floats fs) i, r)

  mutual
    unfolding deconstruct_node collected widen has_placeholder reconstruct_node

    node :
        (t : Node F) (bs rest : List GoString)
        → IsExact
        → length bs + length (collected t) ≤ 2 ^ 53
        → has_placeholder floats (widen floats t) ≡ false
        → reconstruct_node floats
            (widen floats (deconstruct_node t bs).0)
            (bs ++ (collected t ++ rest))
          ≡ widen floats t
    node null bs rest x f p = refl
    node (bool b) bs rest x f p = refl
    node (int n) bs rest x f p = refl
    node (float n) bs rest x f p = refl
    node (text s) bs rest x f p = refl
    node (bytes b) bs rest x f p = reconstruct_node-placeholder bs b rest x (omega arith)
    node (arr xs) bs rest x f p = ap arr (items xs bs rest x f p)
    node (obj fs) bs rest x f p =
        let (plain, inner) = has_placeholder-obj (widen_fields floats fs) p in
        reconstruct_node-obj (widen_fields floats (deconstruct_fields fs bs).0)
          (bs ++ (collected_fields fs ++ rest)) (is_placeholder-deconstruct floats fs bs ∙ plain)
        ∙ ap obj (fields fs bs rest x f inner)

    items :
        (t : Items F) (bs rest : List GoString)
        → IsExact
        → length bs + length (collected_items t) ≤ 2 ^ 53
        → has_placeholder_items floats (widen_items floats t) ≡ false
        → reconstruct_items floats
            (widen_items floats (deconstruct_items t bs).0)
            (bs ++ (collected_items t ++ rest))
          ≡ widen_items floats t
    items nil bs rest x f p = refl
    items (cons v vs) bs rest x f p =
        let c = collected v in
        let d = collected_items vs in
        let e = deconstruct_node-collected v bs in
        let bs' = (deconstruct_node v bs).1 in
        let (pv, pvs) =
          or-eq-false (has_placeholder floats (widen floats v))
            (has_placeholder_items floats (widen_items floats vs)) p in
        ap₂ cons
          (ap (λ l. reconstruct_node floats (widen floats (deconstruct_node v bs).0) (bs ++ l))
              (append_assoc c d rest)
            ∙ node v bs (d ++ rest) x (first_fits bs c d (2 ^ 53) f) pv)
          (ap (reconstruct_items floats (widen_items floats (deconstruct_items vs bs').0))
              (shift bs c d rest bs' e)
            ∙ items vs bs' rest x (shift_fits bs c d bs' (2 ^ 53) e f) pvs)

    fields :
        (t : Fields F) (bs rest : List GoString)
        → IsExact
        → length bs + length (collected_fields t) ≤ 2 ^ 53
        → has_placeholder_fields floats (widen_fields floats t) ≡ false
        → reconstruct_fields floats
            (widen_fields floats (deconstruct_fields t bs).0)
            (bs ++ (collected_fields t ++ rest))
          ≡ widen_fields floats t
    fields end bs rest x f p = refl
    fields (field k v vs) bs rest x f p =
        let c = collected v in
        let d = collected_fields vs in
        let e = deconstruct_node-collected v bs in
        let bs' = (deconstruct_node v bs).1 in
        let (pv, pvs) =
          or-eq-false (has_placeholder floats (widen floats v))
            (has_placeholder_fields floats (widen_fields floats vs)) p in
        ap₂ (field k)
          (ap (λ l. reconstruct_node floats (widen floats (deconstruct_node v bs).0) (bs ++ l))
              (append_assoc c d rest)
            ∙ node v bs (d ++ rest) x (first_fits bs c d (2 ^ 53) f) pv)
          (ap (reconstruct_fields floats (widen_fields floats (deconstruct_fields vs bs').0))
              (shift bs c d rest bs' e)
            ∙ fields vs bs' rest x (shift_fits bs c d bs' (2 ^ 53) e f) pvs)

  -- Taking the binary values out of a tree and putting them back gives the tree, each int read
  -- back as a float64, if no object of the tree looks like a placeholder itself and there are few
  -- enough values (2^53) for a float64 to hold their numbers exactly.
  pub reconstruct_node-deconstruct_node :
      (t : Node F)
      → IsExact
      → length (deconstruct_node t []).1 ≤ 2 ^ 53
      → has_placeholder floats (widen floats t) ≡ false
      → reconstruct_node floats (widen floats (deconstruct_node t []).0) (deconstruct_node t []).1
        ≡ widen floats t
  reconstruct_node-deconstruct_node t exact few plain =
      let e : (deconstruct_node t []).1 ≡ collected t = deconstruct_node-collected t [] in
      ap (reconstruct_node floats (widen floats (deconstruct_node t []).0))
        (e ∙ sym (append-nil (collected t)))
      ∙ node t [] [] exact (omega (arith, ap length e, few)) plain
