-- ===== src/Base/Split.antt =====
-- strings.Split and strings.Join for a separator of one byte.
use Prim.Native.Nat.{ℕ}
use mathlib.Core.Path.{◌≡◌, refl, sym, ap}
use mathlib.Core.Logic.{◌≢◌, inl, inr}
use mathlib.Core.Option.{Option, none, some}
use mathlib.Core.List.{List, [], ◌∷◌, ◌++◌}
use native.Mathlib.Omega.{arith}
use hwarr.Base.Tests.{Bool-cases, Option-cases, nat_beq, if◌then◌else◌}
use hwarr.Base.Strings.{GoString}
use hwarr.Base.Lists.{All}

-- The byte goes before the first part.
abbrev onto_first : ℕ → List GoString → List GoString
onto_first c [] = (c ∷ []) ∷ []
onto_first c (p ∷ ps) = (c ∷ p) ∷ ps

unfoldable pub split : GoString → ℕ → List GoString
split [] sep = [] ∷ []
split (c ∷ s) sep = let rest = split s sep in if nat_beq c sep then [] ∷ rest else onto_first c rest

unfoldable pub join_parts : List GoString → ℕ → GoString
join_parts [] sep = []
join_parts (p ∷ []) sep = p
join_parts (p ∷ q ∷ ps) sep = p ++ (sep ∷ join_parts (q ∷ ps) sep)

abbrev pub Lacks : ℕ → GoString → Type 0
Lacks sep = All (λ c. c ≢ sep)

pub split-ne-nil : (s : GoString) (sep : ℕ) → split s sep ≢ []
unfolding split
split-ne-nil [] sep h = cc
split-ne-nil (c ∷ s) sep h = ground (arith, split-ne-nil s sep)

join_parts-cons_nil :
    (ps : List GoString) (sep : ℕ) → ps ≢ [] → join_parts ([] ∷ ps) sep ≡ sep ∷ join_parts ps sep
unfolding join_parts
join_parts-cons_nil [] sep h = absurd (h refl)
join_parts-cons_nil (p ∷ ps) sep h = refl

join_parts-onto_first :
    (c : ℕ) (ps : List GoString) (sep : ℕ)
    → ps ≢ []
    → join_parts (onto_first c ps) sep ≡ c ∷ join_parts ps sep
unfolding join_parts
join_parts-onto_first c [] sep h = absurd (h refl)
join_parts-onto_first c (p ∷ []) sep h = refl
join_parts-onto_first c (p ∷ q ∷ ps) sep h = refl

pub join_parts-split : (s : GoString) (sep : ℕ) → join_parts (split s sep) sep ≡ s
unfolding split
join_parts-split [] sep = unfold join_parts in refl
join_parts-split (c ∷ s) sep = ground (
  arith,
  join_parts-split s sep,
  join_parts-cons_nil (split s sep) sep (split-ne-nil s sep),
  join_parts-onto_first c (split s sep) sep (split-ne-nil s sep),
)

split-Lacks : (p : GoString) (sep : ℕ) → Lacks sep p → split p sep ≡ p ∷ []
unfolding split
split-Lacks [] sep h = refl
split-Lacks (c ∷ p) sep h = ground (arith, split-Lacks p sep h.1)

split-append :
    (p s : GoString) (sep : ℕ) → Lacks sep p → split (p ++ (sep ∷ s)) sep ≡ p ∷ split s sep
unfolding split
split-append [] s sep h = ground arith
split-append (c ∷ p) s sep h = ground (arith, split-append p s sep h.1)

pub split-join_parts :
    (ps : List GoString) (sep : ℕ)
    → ps ≢ []
    → All (Lacks sep) ps
    → split (join_parts ps sep) sep ≡ ps
unfolding join_parts
split-join_parts [] sep h l = absurd (h refl)
split-join_parts (p ∷ []) sep h l = split-Lacks p sep l.0
split-join_parts (p ∷ q ∷ ps) sep h l =
    rw (split-append p (join_parts (q ∷ ps) sep) sep l.0)
      (ap (◌∷◌ p) (split-join_parts (q ∷ ps) sep (cc) l.1))

-- strings.SplitN(s, sep, 2), where it gives two parts
abbrev pub onto_left : ℕ → Option (GoString × GoString) → Option (GoString × GoString)
onto_left c none = none
onto_left c (some (left, right)) = some (c ∷ left, right)

unfoldable pub split_once : GoString → ℕ → Option (GoString × GoString)
split_once [] sep = none
split_once (c ∷ s) sep =
    let rest = split_once s sep in if nat_beq c sep then some ([], s) else onto_left c rest

pub split_once-append :
    (s t : GoString) (sep : ℕ) → Lacks sep s → split_once (s ++ (sep ∷ t)) sep ≡ some (s, t)
unfolding split_once
split_once-append [] t sep h = ground arith
split_once-append (c ∷ s) t sep h = ground (arith, split_once-append s t sep h.1)

-- What is split is the two parts with the separator between them.
pub append-split_once :
    (s : GoString) (sep : ℕ) {left right : GoString}
    → split_once s sep ≡ some (left, right)
    → s ≡ left ++ (sep ∷ right)
unfolding split_once
append-split_once [] sep h = cc
append-split_once (c ∷ s) sep {left} {right} h = elim (Bool-cases (nat_beq c sep)) [
  | inl same ↦ ground (arith, same, h)
  | inr other ↦ elim (Option-cases (split_once s sep)) [
    | inl e ↦ absurd (ground (arith, other, e, h))
    | inr ((l, r), e) ↦
        let le : c ∷ l ≡ left = ground (arith, other, e, h) in
        let re : r ≡ right = ground (arith, other, e, h) in
        rw (sym le, sym re) (ap (λ x. c ∷ x) (append-split_once s sep {left = l} {right = r} e))
  ]
]

pub split-All-Lacks : (s : GoString) (sep : ℕ) → All (Lacks sep) (split s sep)
unfolding split
split-All-Lacks [] sep = (tt, tt)
split-All-Lacks (c ∷ s) sep = elim (Bool-cases (nat_beq c sep)) [
  | inl same ↦ rw same (tt, split-All-Lacks s sep)
  | inr other ↦
      rw other
        (onto_first-All-Lacks (split s sep) (λ e. ground (arith, other, e)) (split-All-Lacks s sep))
]
  where
    onto_first-All-Lacks :
        (ps : List GoString) → c ≢ sep → All (Lacks sep) ps → All (Lacks sep) (onto_first c ps)
    onto_first-All-Lacks [] n h = ((n, tt), tt)
    onto_first-All-Lacks (p ∷ ps) n h = ((n, h.0), h.1)
