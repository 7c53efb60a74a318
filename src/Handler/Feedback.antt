-- ===== src/Handler/Feedback.antt =====
-- server/internal/handler/feedback.go. The request's body is bound and checked by a parameter of
-- the web framework's: none where that fails. Redis is a parameter: a state `R` and an operation for
-- each method of the rate limiter. Whether Discord accepts a payload is an argument.
pub mod Limits
pub mod Quotes
mod Examples
use Prim.Native.String.{String}
use hwarr.Base.{
  ℕ, ◌+◌, ◌-◌, GoString, codes, utf8, List, [], ◌∷◌, ◌++◌, map, Bool, true, false, Option, none,
  some, length, ltb, leb, take, get_or, if◌then◌else◌, ◌==◌, nat_eq, str_eq,
}
use hwarr.Base.Decimal.{ℤ, pos, negsuc, atoi}
use hwarr.Base.Split.{split, join_parts, split_once}
use hwarr.Base.Trim.{trim_space}
use hwarr.GoMap.{GoMap, get}

pub record FeedbackRedis (R : Type 0) : Type 0 where
  pub incr : R → GoString → R × Option ℕ
  pub expire : R → GoString → ℕ → R × Bool

pub record FeedbackRequest : Type 0 where
  pub category : GoString
  pub message : GoString
  pub email : Option GoString
  pub page : Option GoString

abbrev pub category_labels : GoMap GoString String
category_labels =
    (codes "bug", "🐛 버그 제보") ∷ (codes "idea", "💡 기능 제안") ∷ (codes "etc", "💬 기타 의견") ∷ []

abbrev pub category_colors : GoMap GoString ℕ
category_colors = (codes "bug", 0xF3727F) ∷ (codes "idea", 0x1ED760) ∷ (codes "etc", 0xFFA42B) ∷ []

pub record FeedbackHandler (R : Type 0) : Type 0 where
  pub redis : Option (FeedbackRedis R)
  pub webhook_url : GoString
  pub rate_limit : ℕ

-- A positive limit in the environment replaces 3.
abbrev pub positive_or : Option ℤ → ℕ → ℕ
positive_or none d = d
positive_or (some (negsuc n)) d = d
positive_or (some (pos n)) d = if ltb 0 n then n else d

unfoldable pub new_feedback_handler :
    {R : Type 0} → Option (FeedbackRedis R) → GoString → GoString → FeedbackHandler R
unfolding atoi
new_feedback_handler redis url limit = record {
  redis = redis;
  webhook_url = url;
  rate_limit = positive_or (atoi limit) 3;
}

-- A header that is missing is empty.
pub record Headers : Type 0 where
  pub forwarded_for : GoString
  pub client_ip : GoString
  pub viewer_agent : GoString
  pub user_agent : GoString

abbrev pub first_part : GoString → Option (GoString × GoString) → GoString
first_part s none = s
first_part s (some (left, right)) = left

unfoldable pub resolve_client_ip : Headers → GoString
unfolding trim_space split_once
resolve_client_ip h = elim h.forwarded_for [
  | [] ↦ h.client_ip
  | c ∷ rest ↦ trim_space (first_part (c ∷ rest) (split_once (c ∷ rest) b','))
]

abbrev pub or_else : GoString → GoString → GoString
or_else [] d = d
or_else (c ∷ s) d = c ∷ s

abbrev pub agent_of : Headers → GoString
agent_of h = or_else h.viewer_agent (or_else h.user_agent (codes "-"))

abbrev pub ua_max_len : ℕ
ua_max_len = 80

unfoldable pub short_ua : GoString → GoString
unfolding utf8
short_ua ua =
    if ua == []
    then codes "unknown client"
    else if ua == codes "-"
    then codes "unknown client"
    else if leb (length ua) ua_max_len
    then ua
    else take (ua_max_len - 1) ua ++ utf8 "…"

abbrev pub quote_line : GoString → GoString
quote_line [] = codes ">"
quote_line (c ∷ line) = codes "> " ++ (c ∷ line)

unfoldable pub quote_lines : GoString → GoString
unfolding split join_parts
quote_lines message = join_parts (map quote_line (split message b'\n')) b'\n'

-- The embed; its timestamp is left out.
pub record Embed : Type 0 where
  pub author : GoString
  pub description : GoString
  pub color : ℕ
  pub fields : List (GoString × GoString)
  pub footer : GoString

abbrev pub optional_field : GoString → Option GoString → List (GoString × GoString)
optional_field name none = []
optional_field name (some []) = []
optional_field name (some (c ∷ s)) = (name, c ∷ s) ∷ []

abbrev pub code_span : Option GoString → Option GoString
code_span none = none
code_span (some []) = some []
code_span (some (c ∷ s)) = some (b'`' ∷ (c ∷ s) ++ codes "`")

abbrev pub label_of : Option String → GoString → GoString
label_of none category = category
label_of (some label) category = utf8 label

unfoldable pub embed_of : FeedbackRequest → GoString → GoString → Embed
unfolding quote_lines short_ua utf8 get
embed_of body ip ua = record {
  author = label_of (get category_labels body.category) body.category;
  description = quote_lines body.message;
  color = get_or (get category_colors body.category) 0x888888;
  fields =
      optional_field (utf8 "페이지") (code_span body.page)
      ++ optional_field (utf8 "답변 이메일") body.email;
  footer = ip ++ (utf8 " · " ++ short_ua ua);
}

-- The response's status, and the embed that was given to Discord, if there is one.
abbrev pub Reply : Type 0
Reply = ℕ × Option Embed

abbrev pub rl_key : GoString → GoString
rl_key ip = codes "feedback:rl:" ++ ip

module _ {R : Type 0} where
  -- Whether the request may go on, behind INCR. An error lets it through.
  abbrev pub limited : FeedbackRedis R → ℕ → GoString → R × Option ℕ → R × Bool
  limited ops limit key (r, none) = (r, false)
  limited ops limit key (r, some count) =
      (if count == 1 then (ops.expire r key 600).0 else r, ltb limit count)

  unfoldable pub check_limit : Option (FeedbackRedis R) → ℕ → R → GoString → R × Bool
  check_limit none limit r key = (r, false)
  check_limit (some ops) limit r key = limited ops limit key (ops.incr r key)

  abbrev pub deliver : (Embed → Bool) → Embed → R × Bool → R × Reply
  deliver accepts embed (r, true) = (r, (429, none))
  deliver accepts embed (r, false) = (r, (if accepts embed then 201 else 502, some embed))

  -- Handle
  unfoldable pub handle_feedback :
      FeedbackHandler R → (Embed → Bool) → Headers → Option FeedbackRequest → R → R × Reply
  unfolding resolve_client_ip check_limit embed_of
  handle_feedback h accepts headers body r = elim h.webhook_url [
    | [] ↦ (r, (503, none))
    | c ∷ url ↦ elim body [
      | none ↦ (r, (422, none))
      | some b ↦
          let ip = resolve_client_ip headers in
          deliver accepts (embed_of b ip (agent_of headers))
            (check_limit h.redis h.rate_limit r (rl_key ip))
    ]
  ]
