-- ===== src/Sio/RateLimiter.antt =====
-- server/internal/sio/ratelimit.go. The token bucket of golang.org/x/time/rate is a parameter: its
-- constructor, from a number of events per second and a burst, and its test at a time. The rates of
-- the source, given as a Limit or as a time between events, are events per second here.
pub mod Violations
use hwarr.Base.{
  ℕ, ◌+◌, GoString, [], ◌∷◌, ◌++◌, Bool, true, false, codes, Option, none, some, err, ltb, get_or,
  if◌then◌else◌, str_eq,
}
use hwarr.GoMap.{GoMap, get, assign, delete}
use hwarr.Socketio.Middleware.{MiddlewareFunc}

abbrev pub max_violations : ℕ
max_violations = 10

pub record TokenBucket (L : Type 0) : Type 0 where
  pub new_limiter : ℕ → ℕ → L
  pub permits : L → ℕ → Bool × L

abbrev pub limits : GoMap GoString ℕ
limits = (codes "fire:ignite", 17) ∷ (codes "chat:send", 1) ∷ (codes "subscribe:viewport", 5) ∷ []

abbrev pub bursts : GoMap GoString ℕ
bursts = (codes "fire:ignite", 17) ∷ (codes "chat:send", 2) ∷ (codes "subscribe:viewport", 5) ∷ []

pub record RateLimiter (L : Type 0) : Type 0 where
  pub buckets : GoMap GoString (GoMap GoString L)
  pub violations : GoMap GoString ℕ

-- Whether the event is allowed, and whether the client is to be disconnected.
pub record Verdict : Type 0 where
  pub allowed : Bool
  pub disconnects : Bool

module _ {L : Type 0} where
  unfoldable pub new_rate_limiter : RateLimiter L
  new_rate_limiter = record { buckets = []; violations = [] }

  unfoldable pub forget : RateLimiter L → GoString → RateLimiter L
  forget rl sid = record { buckets = delete rl.buckets sid; violations = delete rl.violations sid }

  abbrev pub violations_of : RateLimiter L → GoString → ℕ
  violations_of rl sid = get_or (get rl.violations sid) 0

  -- The violation path of Allow.
  unfoldable pub violate : RateLimiter L → GoString → RateLimiter L × Verdict
  violate rl sid =
      let count = violations_of rl sid + 1 in
      let counted = assign rl.violations sid count in
      if ltb max_violations count
      then (
        record { buckets = delete rl.buckets sid; violations = delete counted sid },
        record { allowed = false; disconnects = true },
      )
      else (record rl { violations = counted }, record { allowed = false; disconnects = false })

module _ {L : Type 0} (bucket : TokenBucket L) where
  -- The limiter of a socket and an event, made when it is first needed, is asked once.
  unfoldable pub allow_limited :
      RateLimiter L → GoString → GoString → ℕ → ℕ → RateLimiter L × Verdict
  unfolding violate
  allow_limited rl sid event limit now =
      let event_map = get_or (get rl.buckets sid) [] in
      let limiter =
        get_or (get event_map event) (bucket.new_limiter limit (get_or (get bursts event) 0)) in
      let answer = bucket.permits limiter now in
      let asked = record rl { buckets = assign rl.buckets sid (assign event_map event answer.1) } in
      if answer.0
      then (asked, record { allowed = true; disconnects = false })
      else violate asked sid

  -- An event with no limit is allowed.
  unfoldable pub allow : RateLimiter L → GoString → GoString → ℕ → RateLimiter L × Verdict
  unfolding allow_limited
  allow rl sid event now = elim (get limits event) [
    | none ↦ (rl, record { allowed = true; disconnects = false })
    | some limit ↦ allow_limited rl sid event limit now
  ]

  -- The disconnect function, `none` for nil, runs outside the lock, on the limiter too.
  unfoldable pub enforce :
      {W : Type 0}
      → Option (GoString → RateLimiter L × W → RateLimiter L × W)
      → GoString
      → GoString
      → ℕ
      → RateLimiter L × W
      → (RateLimiter L × W) × Bool
  unfolding allow
  enforce disconnect_fn sid event now (rl, w) =
      let answer = allow rl sid event now in
      (
        elim disconnect_fn [
          | none ↦ (answer.0, w)
          | some f ↦ if answer.1.disconnects then f sid (answer.0, w) else (answer.0, w)
        ],
        answer.1.allowed,
      )

  -- NewRateLimitMiddleware, with the clock that Allow reads.
  unfoldable pub rate_limit_middleware :
      {W V : Type 0}
      → (W → ℕ)
      → Option (GoString → RateLimiter L × W → RateLimiter L × W)
      → MiddlewareFunc (RateLimiter L × W) V
  unfolding enforce
  rate_limit_middleware clock disconnect_fn sid event args next (rl, w) =
      let answer = enforce disconnect_fn sid event (clock w) (rl, w) in
      if answer.1
      then next answer.0
      else (answer.0, err (codes "rate limit exceeded for event " ++ event))
