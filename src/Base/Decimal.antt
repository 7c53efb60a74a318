-- ===== src/Base/Decimal.antt =====
-- strconv.Itoa and strconv.Atoi for a 64-bit int.
use Prim.Native.Nat.{ℕ, zero, suc, ◌+◌, ◌-◌, ◌*◌, ◌/◌, ◌%◌, ◌^◌, ◌<◌, ◌≤◌}
use mathlib.Core.Path.{◌≡◌, refl, ap, ◌∙◌}
use mathlib.Core.Logic.{◌≢◌, inl, inr}
use mathlib.Core.Bool.{Bool, true, ◌&&◌}
use mathlib.Core.List.{[], ◌∷◌, ◌++◌, concat-ne-nil}
use mathlib.Core.Option.{Option, none, some}
use native.Mathlib.Omega.{arith}
use hwarr.Base.Tests.{ltb, leb, nat_beq, Bool-cases, if◌then◌else◌}
use hwarr.Base.Strings.{GoString}
use hwarr.Base.Lists.{All, All-append}

-- `negsuc n` is -(n + 1).
pub data ℤ : Type 0 where
  pos : ℕ → ℤ
  negsuc : ℕ → ℤ

abbrev pub max_int : ℕ
max_int = 2 ^ 63 - 1

abbrev pub is_digit : ℕ → Bool
is_digit c = leb b'0' c && leb c b'9'

-- The digits of a number, on fuel: `n + 1` is enough for `n`.
unfoldable pub digits : ℕ → ℕ → GoString
digits zero n = []
digits (suc f) n =
    let more = digits f (n / 10) ++ (b'0' + n % 10) ∷ [] in
    if ltb n 10 then (b'0' + n) ∷ [] else more

unfoldable pub itoa : ℕ → GoString
unfolding digits
itoa n = digits (suc n) n

unfoldable pub parse_digits : ℕ → GoString → Option ℕ
parse_digits acc [] = some acc
parse_digits acc (c ∷ s) =
    let rest = parse_digits (acc * 10 + (c - b'0')) s in if is_digit c then rest else none

-- At least one digit, and a value of at most `bound`.
unfoldable pub parse_nat : ℕ → GoString → Option ℕ
unfolding parse_digits
parse_nat bound [] = none
parse_nat bound (c ∷ s) = elim (parse_digits 0 (c ∷ s)) [
  | none ↦ none
  | some n ↦ if ltb bound n then none else some n
]

abbrev negate : ℕ → ℤ
negate zero = pos 0
negate (suc n) = negsuc n

abbrev map_ℤ : (ℕ → ℤ) → Option ℕ → Option ℤ
map_ℤ f none = none
map_ℤ f (some n) = some (f n)

unfoldable pub atoi : GoString → Option ℤ
unfolding parse_nat
atoi [] = none
atoi (c ∷ s) =
    let negative = map_ℤ negate (parse_nat (2 ^ 63) s) in
    let plus = map_ℤ pos (parse_nat max_int s) in
    let plain = map_ℤ pos (parse_nat max_int (c ∷ s)) in
    if nat_beq c b'+' then plus else if nat_beq c b'-' then negative else plain

abbrev pub IsDigits : GoString → Type 0
IsDigits = All (λ c. is_digit c ≡ true)

digits-IsDigits : (f n : ℕ) → IsDigits (digits f n)
unfolding digits
digits-IsDigits zero n = tt
digits-IsDigits (suc f) n = elim (Bool-cases (ltb n 10)) [
  | inl small ↦ rw small (ground arith)
  | inr large ↦ rw large (
      All-append (λ c. is_digit c ≡ true) (digits f (n / 10)) ((b'0' + n % 10) ∷ [])
        (digits-IsDigits f (n / 10)) (ground arith))
]

pub itoa-IsDigits : (n : ℕ) → IsDigits (itoa n)
unfolding itoa
itoa-IsDigits n = digits-IsDigits (suc n) n

parse_digits-append :
    (s : GoString) (acc d : ℕ) {n : ℕ}
    → parse_digits acc s ≡ some n
    → d < 10
    → parse_digits acc (s ++ (b'0' + d) ∷ []) ≡ some (n * 10 + d)
unfolding parse_digits
parse_digits-append [] acc d h lt = ground arith
parse_digits-append (c ∷ s) acc d {n} h lt = elim (Bool-cases (is_digit c)) [
  | inl yes_digit ↦
      rw yes_digit (parse_digits-append s (acc * 10 + (c - b'0')) d {n = n} (rw yes_digit at h) lt)
  | inr no_digit ↦ absurd (ground arith)
]

parse_digits-digits : (f n : ℕ) → n < f → parse_digits 0 (digits f n) ≡ some n
unfolding digits
parse_digits-digits zero n h = absurd (omega arith)
parse_digits-digits (suc f) n h = elim (Bool-cases (ltb n 10)) [
  | inl small ↦ rw small (unfold parse_digits in ground arith)
  | inr large ↦
      let e : n / 10 * 10 + n % 10 ≡ n = omega arith in
      rw large (
        parse_digits-append (digits f (n / 10)) 0 (n % 10)
          (parse_digits-digits f (n / 10) (ground arith)) (omega arith)
        ∙ ap some e)
]

digits-ne-nil : (f n : ℕ) → digits (suc f) n ≢ []
unfolding digits
digits-ne-nil f n = elim (Bool-cases (ltb n 10)) [
  | inl small ↦ rw small (λ h. cc)
  | inr large ↦ rw large (concat-ne-nil (b'0' + n % 10) (digits f (n / 10)))
]

pub itoa-ne-nil : (n : ℕ) → itoa n ≢ []
unfolding itoa
itoa-ne-nil n = digits-ne-nil n n

parse_nat-of_digits :
    (bound n : ℕ) (s : GoString)
    → s ≢ []
    → parse_digits 0 s ≡ some n
    → n ≤ bound
    → parse_nat bound s ≡ some n
unfolding parse_nat
parse_nat-of_digits bound n [] h p le = absurd (h refl)
parse_nat-of_digits bound n (c ∷ s) h p le = ground arith

parse_nat-itoa : (bound n : ℕ) → n ≤ bound → parse_nat bound (itoa n) ≡ some n
unfolding itoa
parse_nat-itoa bound n h =
    parse_nat-of_digits bound n (itoa n) (itoa-ne-nil n)
      (parse_digits-digits (suc n) n (omega arith)) h

atoi-digits :
    (s : GoString) {n : ℕ} → IsDigits s → parse_nat max_int s ≡ some n → atoi s ≡ some (pos n)
unfolding atoi
atoi-digits [] d h = unfold parse_nat in ground arith
atoi-digits (c ∷ s) d h = ground arith

-- Atoi reads back what Itoa prints, for every non-negative int.
pub atoi-itoa : (n : ℕ) → n ≤ max_int → atoi (itoa n) ≡ some (pos n)
atoi-itoa n h = atoi-digits (itoa n) (itoa-IsDigits n) (parse_nat-itoa max_int n h)

-- Atoi reads back a minus sign before what Itoa prints, for every negative int.
pub atoi-minus_itoa : (n : ℕ) → n ≤ max_int → atoi (b'-' ∷ itoa (suc n)) ≡ some (negsuc n)
unfolding atoi
atoi-minus_itoa n h = ap (map_ℤ negate) (parse_nat-itoa (2 ^ 63) (suc n) (omega arith))
