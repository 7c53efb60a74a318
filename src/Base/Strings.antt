-- ===== src/Base/Strings.antt =====
-- A Go string is a sequence of bytes, and a `[]byte` is one too.
use Prim.Native.Nat.{ℕ, ◌+◌, ◌/◌, ◌%◌}
use Prim.Native.Char.{code}
use Prim.Native.String.{String}
use mathlib.Core.Path.{◌≡◌, refl}
use mathlib.Core.Logic.{◌↔◌}
use mathlib.Core.Bool.{Bool, true, false, ◌&&◌, ◌||◌}
use mathlib.Core.List.{List, [], ◌∷◌, ◌++◌}
use native.Mathlib.Omega.{arith}
use hwarr.Base.Tests.{nat_beq, ltb, if◌then◌else◌}
use hwarr.Base.Equality.{Comparable}

abbrev pub GoString : Type 0
GoString = List ℕ

-- The bytes of an ASCII literal.
abbrev pub codes : String → GoString
codes String.[] = []
codes (String.◌∷◌ c s) = code c ∷ codes s

-- A code point in UTF-8
abbrev utf8_bytes : ℕ → GoString
utf8_bytes c =
    let low = 128 + c % 64 in
    let middle = 128 + c / 64 % 64 in
    let high = 128 + c / 4096 % 64 in
    if ltb c 128
    then c ∷ []
    else if ltb c 2048
    then (192 + c / 64) ∷ low ∷ []
    else if ltb c 65536
    then (224 + c / 4096) ∷ middle ∷ low ∷ []
    else (240 + c / 262144) ∷ high ∷ middle ∷ low ∷ []

-- The bytes of a literal.
unfoldable pub utf8 : String → GoString
utf8 String.[] = []
utf8 (String.◌∷◌ c s) = utf8_bytes (code c) ++ utf8 s

unfoldable pub str_beq : GoString → GoString → Bool
str_beq [] [] = true
str_beq (a ∷ s) (b ∷ t) = nat_beq a b && str_beq s t
str_beq _ _ = false

str_beq→eq : (s t : GoString) → str_beq s t ≡ true → s ≡ t
unfolding str_beq
str_beq→eq [] [] h = refl
str_beq→eq [] (b ∷ t) h = cc
str_beq→eq (a ∷ s) [] h = cc
str_beq→eq (a ∷ s) (b ∷ t) h = ground (arith, str_beq→eq s t)

str_beq_self : (s : GoString) → str_beq s s ≡ true
unfolding str_beq
str_beq_self [] = refl
str_beq_self (a ∷ s) = ground (arith, str_beq_self s)

eq→str_beq : (s t : GoString) → s ≡ t → str_beq s t ≡ true
eq→str_beq s t h = rw h (str_beq_self t)

pub str_iff : (s t : GoString) → (str_beq s t ≡ true) ↔ (s ≡ t)
str_iff s t = (str_beq→eq s t, eq→str_beq s t)

instance abbrev pub str_eq : Comparable GoString
str_eq = record { equal = str_beq; equal_iff = str_iff }

abbrev pub contains : List GoString → GoString → Bool
contains [] x = false
contains (y ∷ ys) x = str_beq y x || contains ys x
