-- ===== src/Auth/Token/Issued.antt =====
-- Tokens of server/internal/auth/token.go, issued and validated.
use hwarr.Base.{
  ℕ, ◌+◌, ◌≤◌, GoString, [], ◌∷◌, ◌++◌, append_assoc, Option, none, some, ok, err, ltb,
  if◌then◌else◌, ◌==◌, str_eq, str_iff, ◌≡◌, refl, sym, ap, ◌∙◌, arith, Option-cases, Bool-cases,
  inl, inr,
}
use hwarr.Base.Decimal.{ℤ, pos, negsuc, itoa, atoi, atoi-itoa, itoa-IsDigits, max_int, IsDigits}
use hwarr.Base.Split.{split_once, split_once-append, append-split_once, Lacks}
use hwarr.Auth.Token.{
  TokenService, issue, validate, split_three, first_cut, second_cut, check_parts, check_expiry,
  payload_of, colon, expired,
}

IsDigits-Lacks : (s : GoString) → IsDigits s → Lacks colon s
IsDigits-Lacks [] h = tt
IsDigits-Lacks (c ∷ s) h = (λ e. ground (arith, e, h.0), IsDigits-Lacks s h.1)

split_three-append :
    (a b c : GoString)
    → Lacks colon a
    → Lacks colon b
    → split_three ((a ++ (colon ∷ b)) ++ (colon ∷ c)) ≡ some (a, b, c)
unfolding split_three
split_three-append a b c h k =
    ap (λ s. first_cut (split_once s colon)) (append_assoc a (colon ∷ b) (colon ∷ c))
    ∙ ap first_cut (split_once-append a (b ++ (colon ∷ c)) colon h)
    ∙ ap (second_cut a) (split_once-append b c colon k)

check_parts-signed :
    (ts : TokenService) (now : ℕ) (user_id expiry : GoString)
    → check_parts ts now (some (user_id, expiry, ts.mac (payload_of user_id expiry)))
      ≡ check_expiry user_id now (atoi expiry)
check_parts-signed ts now user_id expiry =
    let sig = ts.mac (payload_of user_id expiry) in rw ((str_iff sig sig).1 refl) refl

-- A token that was issued for a user id without a colon is valid for exactly that user until it
-- expires, and from then on it is refused as expired, whatever the signature function; the time
-- of expiry is taken to fit in 64 bits.
pub validate-issue :
    (ts : TokenService) (user_id : GoString) (issued now : ℕ)
    → Lacks colon user_id
    → issued + ts.ttl ≤ max_int
    → validate ts (issue ts user_id issued) now
      ≡ (if ltb (issued + ts.ttl) now then err expired else ok user_id)
unfolding validate issue
validate-issue ts user_id issued now lacks fits =
    let expiry = itoa (issued + ts.ttl) in
    let digits = IsDigits-Lacks expiry (itoa-IsDigits (issued + ts.ttl)) in
    ap (check_parts ts now)
      (split_three-append user_id expiry (ts.mac (payload_of user_id expiry)) lacks digits)
    ∙ check_parts-signed ts now user_id expiry
    ∙ ap (check_expiry user_id now) (atoi-itoa (issued + ts.ttl) fits)

check_expiry-accepts :
    (a : GoString) (now : ℕ) (o : Option ℤ) {user_id : GoString}
    → check_expiry a now o ≡ ok user_id
    → (a ≡ user_id) × ((n : ℕ) × (o ≡ some (pos n)) × (now ≤ n))
check_expiry-accepts a now none h = absurd (ground (arith, h))
check_expiry-accepts a now (some (negsuc n)) h = absurd (ground (arith, h))
check_expiry-accepts a now (some (pos n)) h = elim (Bool-cases (ltb n now)) [
  | inl past ↦ absurd (ground (arith, past, h))
  | inr present ↦ (ground (arith, present, h), (n, refl, ground (arith, present)))
]

check_parts-accepts :
    (ts : TokenService) (now : ℕ) (a b c : GoString) {user_id : GoString}
    → check_parts ts now (some (a, b, c)) ≡ ok user_id
    → (c ≡ ts.mac (payload_of a b))
      × (a ≡ user_id)
      × ((n : ℕ) × (atoi b ≡ some (pos n)) × (now ≤ n))
check_parts-accepts ts now a b c {user_id} h = elim (Bool-cases (c == ts.mac (payload_of a b))) [
  | inr forged ↦ absurd (ground (arith, forged, h))
  | inl signed ↦
      let accepted =
        check_expiry-accepts a now (atoi b) {user_id = user_id} (ground (arith, signed, h)) in
      ((str_iff c (ts.mac (payload_of a b))).0 signed, accepted.0, accepted.1)
]

whole :
    (ts : TokenService) (token a b c user_id : GoString)
    → c ≡ ts.mac (payload_of a b)
    → a ≡ user_id
    → token ≡ a ++ (colon ∷ (b ++ (colon ∷ c)))
    → token ≡ payload_of user_id b ++ (colon ∷ ts.mac (payload_of user_id b))
whole ts token a b c user_id s u t =
    t ∙ rw (s, u) (sym (append_assoc user_id (colon ∷ b) (colon ∷ ts.mac (payload_of user_id b))))

-- A token that is accepted for a user carries the signature of that user's id and an expiry,
-- which is a number not before the present: nothing is accepted that was not signed as a whole.
pub validate-signed :
    (ts : TokenService) (token : GoString) (now : ℕ) {user_id : GoString}
    → validate ts token now ≡ ok user_id
    → (expiry : GoString) × (token
        ≡ payload_of user_id expiry ++ (colon ∷ ts.mac (payload_of user_id expiry)))
      × ((n : ℕ) × (atoi expiry ≡ some (pos n)) × (now ≤ n))
unfolding validate split_three
validate-signed ts token now {user_id} h = elim (Option-cases (split_once token colon)) [
  | inl e ↦ absurd (ground (arith, e, h))
  | inr ((a, rest), e) ↦ elim (Option-cases (split_once rest colon)) [
    | inl f ↦ absurd (ground (arith, e, f, h))
    | inr ((b, c), f) ↦
        let parts : check_parts ts now (some (a, b, c)) ≡ ok user_id = ground (arith, e, f, h) in
        let signed = check_parts-accepts ts now a b c parts in
        (
          b,
          whole ts token a b c user_id signed.0 signed.1 (
              append-split_once token colon e
              ∙ ap (λ r. a ++ (colon ∷ r)) (append-split_once rest colon f)),
          signed.2,
        )
  ]
]
