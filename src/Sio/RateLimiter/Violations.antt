-- ===== src/Sio/RateLimiter/Violations.antt =====
-- How a RateLimiter counts violations, over any sequence of calls of Allow.
use hwarr.Base.{
  ℕ, ◌+◌, ◌*◌, ◌≤◌, GoString, List, [], ◌∷◌, false, not, ◌&&◌, get_or, ltb, if◌then◌else◌, ◌==◌,
  str_eq, str_iff, ◌≡◌, refl, arith, Option-cases, Bool-cases, inl, inr,
}
use hwarr.GoMap.{get, assign}
use hwarr.GoMap.Laws.{get-assign, get-delete}
use hwarr.Sio.RateLimiter.{
  TokenBucket, RateLimiter, Verdict, new_rate_limiter, violations_of, violate, allow_limited, allow,
  limits, bursts, max_violations,
}

module _ {L : Type 0} where
  violations-violate :
      (rl : RateLimiter L) (sid s : GoString)
      → violations_of rl sid ≤ max_violations
      → (violations_of (violate rl sid).0 s
            + 11 * (if (sid == s) && (violate rl sid).1.disconnects then 1 else 0)
          ≡ violations_of rl s + (if sid == s then 1 else 0))
        × ((violate rl sid).1.allowed ≡ false)
        × ((violate rl sid).1.disconnects ≡ ltb 9 (violations_of rl sid))
  unfolding violate
  violations-violate rl sid s h =
      let count = violations_of rl sid + 1 in
      ground (
        arith,
        get-assign rl.violations sid s count,
        get-delete (assign rl.violations sid count) sid s,
        str_iff sid s,
      )

  violations-violate-le :
      (rl : RateLimiter L) (sid s : GoString)
      → violations_of rl s ≤ max_violations
      → violations_of (violate rl sid).0 s ≤ max_violations
  unfolding violate
  violations-violate-le rl sid s h =
      let count = violations_of rl sid + 1 in
      ground (
        arith,
        get-assign rl.violations sid s count,
        get-delete (assign rl.violations sid count) sid s,
        str_iff sid s,
      )

module _ {L : Type 0} (bucket : TokenBucket L) where
  -- What an answer says of the violations of a socket.
  abbrev Accounts : RateLimiter L → GoString → GoString → RateLimiter L × Verdict → Type 0
  Accounts rl sid s (rl', v) =
      (violations_of rl' s + 11 * (if (sid == s) && v.disconnects then 1 else 0)
        ≡ violations_of rl s + (if (sid == s) && not v.allowed then 1 else 0))
      × (v.disconnects ≡ (not v.allowed && ltb 9 (violations_of rl sid)))
      × (violations_of rl' s ≤ max_violations)

  allow_limited-Accounts :
      (rl : RateLimiter L) (sid event : GoString) (limit now : ℕ) (s : GoString)
      → violations_of rl sid ≤ max_violations
      → violations_of rl s ≤ max_violations
      → Accounts rl sid s (allow_limited bucket rl sid event limit now)
  unfolding allow_limited
  allow_limited-Accounts rl sid event limit now s h k =
      let event_map = get_or (get rl.buckets sid) [] in
      let limiter =
        get_or (get event_map event) (bucket.new_limiter limit (get_or (get bursts event) 0)) in
      let answer = bucket.permits limiter now in
      let asked : RateLimiter L = record rl {
        buckets = assign rl.buckets sid (assign event_map event answer.1);
      } in
      elim (Bool-cases answer.0) [
        | inl e ↦ rw e (ground (arith, k), refl, k)
        | inr e ↦
            let v = violations-violate asked sid s h in
            rw e (
              ground (arith, v.0, v.1),
              ground (arith, v.1, v.2),
              violations-violate-le asked sid s k,
            )
      ]

  allow-Accounts :
      (rl : RateLimiter L) (sid event : GoString) (now : ℕ) (s : GoString)
      → violations_of rl sid ≤ max_violations
      → violations_of rl s ≤ max_violations
      → Accounts rl sid s (allow bucket rl sid event now)
  unfolding allow
  allow-Accounts rl sid event now s h k = elim (Option-cases (get limits event)) [
    | inl e ↦ rw (e, allow) (ground (arith, k), refl, k)
    | inr (limit, e) ↦ rw (e, allow) (allow_limited-Accounts rl sid event limit now s h k)
  ]

  -- A call of Allow: the socket, the event and the time.
  abbrev pub Call : Type 0
  Call = GoString × GoString × ℕ

  unfoldable pub run_allows : RateLimiter L → List Call → RateLimiter L
  run_allows rl [] = rl
  run_allows rl ((sid, event, now) ∷ calls) = run_allows (allow bucket rl sid event now).0 calls

  -- How often a socket is denied, and how often it is disconnected.
  unfoldable pub denials : GoString → RateLimiter L → List Call → ℕ
  denials s rl [] = 0
  denials s rl ((sid, event, now) ∷ calls) =
      (if (sid == s) && not (allow bucket rl sid event now).1.allowed then 1 else 0)
      + denials s (allow bucket rl sid event now).0 calls

  unfoldable pub disconnections : GoString → RateLimiter L → List Call → ℕ
  disconnections s rl [] = 0
  disconnections s rl ((sid, event, now) ∷ calls) =
      (if (sid == s) && (allow bucket rl sid event now).1.disconnects then 1 else 0)
      + disconnections s (allow bucket rl sid event now).0 calls

  run_allows-violations :
      (calls : List Call) (rl : RateLimiter L) (s : GoString)
      → ((x : GoString) → violations_of rl x ≤ max_violations)
      → (violations_of (run_allows rl calls) s + 11 * disconnections s rl calls
          ≡ violations_of rl s + denials s rl calls)
        × (violations_of (run_allows rl calls) s ≤ max_violations)
  unfolding run_allows denials disconnections
  run_allows-violations [] rl s h = (omega arith, h s)
  run_allows-violations ((sid, event, now) ∷ calls) rl s h =
      let step = allow-Accounts rl sid event now s (h sid) (h s) in
      let rest =
        run_allows-violations calls (allow bucket rl sid event now).0 s
          (λ x. (allow-Accounts rl sid event now x (h sid) (h x)).2) in
      (omega (arith, step.0, rest.0), rest.1)

  -- Over any calls of Allow on a new limiter, the denials of a socket are eleven for each time it
  -- is disconnected and one for each violation that is counted, and no more than ten violations
  -- are counted; denials need not follow one another.
  pub run_allows-disconnections :
      (calls : List Call) (s : GoString)
      → (violations_of (run_allows new_rate_limiter calls) s
            + 11 * disconnections s new_rate_limiter calls
          ≡ denials s new_rate_limiter calls)
        × (violations_of (run_allows new_rate_limiter calls) s ≤ max_violations)
  unfolding new_rate_limiter get
  run_allows-disconnections calls s =
      let r = run_allows-violations calls new_rate_limiter s (λ x. omega arith) in
      (omega (arith, r.0), r.1)
