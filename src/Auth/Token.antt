-- ===== src/Auth/Token.antt =====
-- server/internal/auth/token.go. The HMAC of a payload, in hexadecimal, is a parameter `mac`; the
-- user id that Issue draws at random and the clock, in seconds, are arguments.
pub mod Issued
mod Examples
use hwarr.Base.{
  ℕ, ◌+◌, ◌*◌, GoString, ◌∷◌, ◌++◌, Bool, true, Option, none, some, Result, ok, err, ltb,
  if◌then◌else◌, ◌==◌, str_eq,
}
use hwarr.Base.Decimal.{ℤ, pos, negsuc, itoa, atoi}
use hwarr.Base.Split.{split_once}

pub record TokenService : Type 0 where
  pub mac : GoString → GoString
  pub ttl : ℕ

unfoldable pub new_token_service : (GoString → GoString) → ℕ → TokenService
new_token_service mac ttl_minutes = record { mac = mac; ttl = ttl_minutes * 60 }

pub data TokenError : Type 0 where
  invalid_format : TokenError
  invalid_signature : TokenError
  invalid_expiration : TokenError
  expired : TokenError

abbrev pub colon : ℕ
colon = b':'

abbrev pub payload_of : GoString → GoString → GoString
payload_of user_id expiry = user_id ++ (colon ∷ expiry)

unfoldable pub issue : TokenService → GoString → ℕ → GoString
unfolding itoa
issue ts user_id now =
    let payload = payload_of user_id (itoa (now + ts.ttl)) in payload ++ (colon ∷ ts.mac payload)

abbrev pub second_cut :
    GoString → Option (GoString × GoString) → Option (GoString × GoString × GoString)
second_cut a none = none
second_cut a (some (b, c)) = some (a, b, c)

abbrev pub first_cut : Option (GoString × GoString) → Option (GoString × GoString × GoString)
first_cut none = none
first_cut (some (a, rest)) = second_cut a (split_once rest colon)

-- strings.SplitN(token, ":", 3), where it gives three parts
unfoldable pub split_three : GoString → Option (GoString × GoString × GoString)
unfolding split_once
split_three s = first_cut (split_once s colon)

-- time.Now().Unix() > expInt
abbrev pub is_past : ℕ → ℤ → Bool
is_past now (pos n) = ltb n now
is_past now (negsuc n) = true

abbrev pub check_expiry : GoString → ℕ → Option ℤ → Result TokenError GoString
check_expiry user_id now none = err invalid_expiration
check_expiry user_id now (some expiry) = if is_past now expiry then err expired else ok user_id

abbrev pub check_parts :
    TokenService → ℕ → Option (GoString × GoString × GoString) → Result TokenError GoString
check_parts ts now none = err invalid_format
check_parts ts now (some (user_id, expiry, sig)) =
    let checked = check_expiry user_id now (atoi expiry) in
    if sig == ts.mac (payload_of user_id expiry) then checked else err invalid_signature

unfoldable pub validate : TokenService → GoString → ℕ → Result TokenError GoString
unfolding split_three atoi
validate ts token now = check_parts ts now (split_three token)
