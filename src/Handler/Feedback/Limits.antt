-- ===== src/Handler/Feedback/Limits.antt =====
-- The rate limit of server/internal/handler/feedback.go, over a run of requests.
use hwarr.Base.{
  ℕ, ◌+◌, ◌-◌, ◌≤◌, GoString, List, [], ◌∷◌, Bool, true, false, Option, none, some, ltb, ◌==◌,
  nat_eq, ◌≡◌, arith, ◌∙◌, Bool-cases, inl, inr,
}
use hwarr.Handler.Feedback.{
  FeedbackRedis, FeedbackHandler, FeedbackRequest, Headers, Embed, Reply, handle_feedback,
  check_limit, limited, deliver, rl_key, resolve_client_ip, embed_of, agent_of,
}

-- INCR counts the calls under a key, and EXPIRE leaves the count as it is within its time.
pub record CountLaws {R : Type 0} (ops : FeedbackRedis R) (count : R → GoString → ℕ) : Type 0 where
  pub answers : (r : R) (key : GoString) → (ops.incr r key).1 ≡ some (count r key + 1)
  pub counts : (r : R) (key : GoString) → count (ops.incr r key).0 key ≡ count r key + 1
  pub keeps :
      (r : R) (key : GoString) (seconds : ℕ) → count (ops.expire r key seconds).0 key ≡ count r key

abbrev pub limiter : {R : Type 0} → FeedbackRedis R → ℕ → GoString → FeedbackHandler R
limiter ops limit url = record { redis = some ops; webhook_url = url; rate_limit = limit }

abbrev was_given : Reply → ℕ
was_given (status, none) = 0
was_given (status, some embed) = 1

module _ {R : Type 0} (h : FeedbackHandler R) (accepts : Embed → Bool) (headers : Headers) where
  -- How many of a client's requests have been given to Discord.
  abbrev pub given : List (Option FeedbackRequest) → R → ℕ
  given [] r = 0
  given (body ∷ rest) r =
      let done = handle_feedback h accepts headers body r in was_given done.1 + given rest done.0

module _ {R : Type 0} (ops : FeedbackRedis R) (count : R → GoString → ℕ)
    (laws : CountLaws ops count) (limit : ℕ) (accepts : Embed → Bool) (headers : Headers) where
  abbrev key : GoString
  key = rl_key (resolve_client_ip headers)

  -- What one request uses up.
  abbrev IsWithin : R → R × Reply → Type 0
  IsWithin r done = was_given done.1 + (limit - count done.0 key) ≤ limit - count r key

  limited-counts :
      (p : R × Option ℕ) (n : ℕ)
      → p.1 ≡ some n
      → count p.0 key ≡ n
      → (count (limited ops limit key p).0 key ≡ n) × ((limited ops limit key p).1 ≡ ltb limit n)
  limited-counts (r, none) n e k = absurd (ground (arith, e))
  limited-counts (r, some m) n e k = elim (Bool-cases (m == 1)) [
    | inl first ↦ rw first (laws.keeps r key 600 ∙ k, ground (arith, e))
    | inr later ↦ rw later (k, ground (arith, e))
  ]

  deliver-IsWithin :
      (r : R) (embed : Embed) (p : R × Bool)
      → count p.0 key ≡ count r key + 1
      → p.1 ≡ ltb limit (count r key + 1)
      → IsWithin r (deliver accepts embed p)
  deliver-IsWithin r embed (s, true) e f = ground (arith, e, f)
  deliver-IsWithin r embed (s, false) e f = ground (arith, e, f)

  handle_feedback-IsWithin :
      (url : GoString) (body : Option FeedbackRequest) (r : R)
      → IsWithin r (handle_feedback (limiter ops limit url) accepts headers body r)
  unfolding handle_feedback check_limit
  handle_feedback-IsWithin [] body r = omega arith
  handle_feedback-IsWithin (c ∷ url) none r = omega arith
  handle_feedback-IsWithin (c ∷ url) (some b) r =
      let counted =
        limited-counts (ops.incr r key) (count r key + 1) (laws.answers r key)
          (laws.counts r key) in
      deliver-IsWithin r (embed_of b (resolve_client_ip headers) (agent_of headers))
        (limited ops limit key (ops.incr r key)) counted.0 counted.1

  -- Of the requests of one address that come within the time of a counter, no more are given to
  -- Discord than the limit leaves beside those that were counted before, whatever their number
  -- and whether Discord accepts them, if Redis answers every call.
  pub given-le :
      (url : GoString) (bodies : List (Option FeedbackRequest)) (r : R)
      → given (limiter ops limit url) accepts headers bodies r ≤ limit - count r key
  given-le url [] r = omega arith
  given-le url (body ∷ rest) r =
      let done = handle_feedback (limiter ops limit url) accepts headers body r in
      omega (arith, handle_feedback-IsWithin url body r, given-le url rest done.0)
