-- ===== src/Handler/Feedback/Examples.antt =====
-- Requests on which the theorems about server/internal/handler/feedback.go are applied.
use hwarr.Base.{ℕ, ◌+◌, ◌≤◌, codes, [], ◌∷◌, true, none, some, refl}
use hwarr.Handler.Feedback.{FeedbackRedis, FeedbackRequest, Headers}
use hwarr.Handler.Feedback.Limits.{CountLaws, given, limiter, given-le}

-- One counter, whatever the key.
abbrev counter : FeedbackRedis ℕ
counter = record { incr = λ r key. (r + 1, some (r + 1)); expire = λ r key seconds. (r, true) }

counter_laws : CountLaws counter (λ r key. r)
counter_laws = record {
  answers = λ r key. refl;
  counts = λ r key. refl;
  keeps = λ r key seconds. refl;
}

abbrev headers : Headers
headers = record {
  forwarded_for = codes "1.2.3.4, 5.6.7.8";
  client_ip = codes "9.9.9.9";
  viewer_agent = [];
  user_agent = codes "curl";
}

abbrev bug : FeedbackRequest
bug = record { category = codes "bug"; message = codes "it\nburns"; email = none; page = none }

given-le_example :
    given
      (limiter counter 3 (codes "http://d"))
      (λ e. true)
      headers
      (some bug ∷ none ∷ some bug ∷ [])
      2
    ≤ 1
given-le_example =
    given-le counter (λ r key. r) counter_laws 3 (λ e. true) headers (codes "http://d")
      (some bug ∷ none ∷ some bug ∷ []) 2
