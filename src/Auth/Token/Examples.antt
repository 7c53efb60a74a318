-- ===== src/Auth/Token/Examples.antt =====
-- A token service on which the theorems about server/internal/auth/token.go are applied.
use hwarr.Base.{
  ℕ, ◌≤◌, GoString, codes, ◌∷◌, ◌++◌, some, ok, err, ltb, if◌then◌else◌, str_beq, ◌≡◌, refl, arith,
}
use hwarr.Base.Decimal.{pos, atoi, parse_nat, parse_digits}
use hwarr.Base.Split.{split_once}
use hwarr.Auth.Token.{TokenService, issue, validate, split_three, payload_of, colon, expired}
use hwarr.Auth.Token.Issued.{validate-issue, validate-signed}

-- Every payload has the same signature.
abbrev service : TokenService
service = record { mac = λ p. codes "ab"; ttl = 600 }

validate-issue_example :
    validate service (issue service (codes "u1") 1000) 1200
    ≡ (if ltb 1600 1200 then err expired else ok (codes "u1"))
validate-issue_example = validate-issue service (codes "u1") 1000 1200 (omega arith) (omega arith)

accepted : validate service (codes "u1:1600:ab") 1200 ≡ ok (codes "u1")
unfolding validate split_three split_once atoi parse_nat parse_digits str_beq
accepted = refl

validate-signed_example :
    (expiry : GoString) × (codes "u1:1600:ab"
      ≡ payload_of (codes "u1") expiry ++ (colon ∷ codes "ab"))
    × ((n : ℕ) × (atoi expiry ≡ some (pos n)) × (1200 ≤ n))
validate-signed_example = validate-signed service (codes "u1:1600:ab") 1200 accepted
