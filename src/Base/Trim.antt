-- ===== src/Base/Trim.antt =====
-- strings.TrimSpace on UTF-8, for the white space of Unicode.
use Prim.Native.Nat.{ℕ, zero, suc}
use mathlib.Core.Bool.{Bool, ◌&&◌, ◌||◌}
use mathlib.Core.List.{[], ◌∷◌, reverse}
use hwarr.Base.Tests.{nat_beq, leb, if◌then◌else◌}
use hwarr.Base.Strings.{GoString}
use hwarr.Base.Lists.{length, drop}

abbrev is_ascii_space : ℕ → Bool
is_ascii_space c = nat_beq c 32 || leb 9 c && leb c 13

-- U+0085 and U+00A0
abbrev is_space_two : ℕ → ℕ → Bool
is_space_two a b = nat_beq a 0xc2 && (nat_beq b 0x85 || nat_beq b 0xa0)

-- U+2000 to U+200A, U+2028, U+2029, U+202F
abbrev is_general_space : ℕ → Bool
is_general_space c =
    leb 0x80 c && leb c 0x8a || (nat_beq c 0xa8 || (nat_beq c 0xa9 || nat_beq c 0xaf))

-- Those, U+1680, U+205F and U+3000
abbrev is_space_three : ℕ → ℕ → ℕ → Bool
is_space_three a b c =
    nat_beq a 0xe1 && (nat_beq b 0x9a && nat_beq c 0x80)
    || (nat_beq a 0xe2 && (nat_beq b 0x80 && is_general_space c)
        || (nat_beq a 0xe2 && (nat_beq b 0x81 && nat_beq c 0x9f)
            || nat_beq a 0xe3 && (nat_beq b 0x80 && nat_beq c 0x80)))

abbrev two_or_three : ℕ → ℕ → GoString → ℕ
two_or_three a b [] = if is_space_two a b then 2 else 0
two_or_three a b (c ∷ s) = if is_space_two a b then 2 else if is_space_three a b c then 3 else 0

-- The width of the white space at the start, 0 for none.
unfoldable pub space_width : GoString → ℕ
space_width [] = 0
space_width (a ∷ []) = if is_ascii_space a then 1 else 0
space_width (a ∷ b ∷ s) = if is_ascii_space a then 1 else two_or_three a b s

abbrev last_two_or_three : ℕ → ℕ → GoString → ℕ
last_two_or_three c b [] = if is_space_two b c then 2 else 0
last_two_or_three c b (a ∷ s) =
    if is_space_two b c then 2 else if is_space_three a b c then 3 else 0

-- The same for the end of a text that is reversed.
unfoldable pub space_width_back : GoString → ℕ
space_width_back [] = 0
space_width_back (a ∷ []) = if is_ascii_space a then 1 else 0
space_width_back (c ∷ b ∷ s) = if is_ascii_space c then 1 else last_two_or_three c b s

-- White space is taken off until there is none; the length is fuel enough.
unfoldable pub trim_by : (GoString → ℕ) → ℕ → GoString → GoString
trim_by width zero s = s
trim_by width (suc f) s =
    let rest = trim_by width f (drop (width s) s) in if nat_beq (width s) 0 then s else rest

unfoldable pub trim_space : GoString → GoString
unfolding trim_by space_width space_width_back
trim_space s =
    let front = trim_by space_width (length s) s in
    reverse (trim_by space_width_back (length front) (reverse front))
