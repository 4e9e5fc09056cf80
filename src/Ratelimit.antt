-- ===== src/Ratelimit.antt =====
-- ratelimit.go: token buckets for the keys of requests. float64 and its operations are a parameter. A
-- bucket is shared by its address, since Allow holds the limiter's lock only to look a bucket up and to
-- store a new one, and the bucket's own lock to take a token: these are three steps, and `allow` is what
-- one goroutine makes of them when no other comes between.
pub mod Burst
use connect_plugin_go.Prelude.{
  ℕ, suc, ◌+◌, ◌-◌, String, Bool, true, false, not, ◌||◌, Option, none, some, List, [], ◌∷◌, ltb,
  nat_eq, ◌==◌, if◌then◌else◌,
}
use connect_plugin_go.Prelude.Int.{ℤ, pos}
use connect_plugin_go.Prelude.Maps.{Map, get, put}
use connect_plugin_go.Prelude.Text.{◌<>◌}

-- `seconds` is Seconds of a duration in nanoseconds.
pub record Float64 : Type 1 where
  pub Number : Type 0
  pub of_int : ℤ → Number
  pub seconds : ℕ → Number
  pub plus : Number → Number → Number
  pub times : Number → Number → Number
  pub minus : Number → Number → Number
  pub greater : Number → Number → Bool
  pub at_least : Number → Number → Bool
  pub equal : Number → Number → Bool

module _ (float : Float64) where
  pub record Rate : Type 0 where
    pub requests_per_second : float.Number
    pub burst : ℤ

  pub record Bucket : Type 0 where
    pub tokens : float.Number
    pub capacity : float.Number
    pub refill_rate : float.Number
    pub last_refill : ℕ

  -- `cells` are the buckets at their addresses, and `fresh` is the next address.
  pub record TokenBucketLimiter : Type 0 where
    pub buckets : Map ℕ
    pub cells : ℕ → Bucket
    pub fresh : ℕ
    pub stopped : Bool

module _ (float : Float64) where
  abbrev new_bucket : Rate float → ℕ → Bucket float
  new_bucket limit now = record {
    tokens = float.of_int limit.burst;
    capacity = float.of_int limit.burst;
    refill_rate = limit.requests_per_second;
    last_refill = now;
  }

  -- No address is in use; what stands at one is of no account.
  abbrev pub new_token_bucket_limiter : TokenBucketLimiter float
  new_token_bucket_limiter = record {
    buckets = [];
    cells = λ a. record {
      tokens = float.of_int (pos 0);
      capacity = float.of_int (pos 0);
      refill_rate = float.of_int (pos 0);
      last_refill = 0;
    };
    fresh = 0;
    stopped = false;
  }

  with_limit : Rate float → Bucket float → Bucket float
  with_limit limit b =
      if not (float.equal b.capacity (float.of_int limit.burst))
        || not (float.equal b.refill_rate limit.requests_per_second)
      then record b { capacity = float.of_int limit.burst; refill_rate = limit.requests_per_second }
      else b

  refilled : ℕ → Bucket float → Bucket float
  refilled now b =
      let tokens =
        float.plus b.tokens (float.times (float.seconds (now - b.last_refill)) b.refill_rate) in
      record b {
        tokens = if float.greater tokens b.capacity then b.capacity else tokens;
        last_refill = now;
      }

  spend : Bucket float → Bucket float × Bool
  spend b =
      if float.at_least b.tokens (float.of_int (pos 1))
      then (record b { tokens = float.minus b.tokens (float.of_int (pos 1)) }, true)
      else (b, false)

  -- take
  unfoldable pub take : Rate float → ℕ → Bucket float → Bucket float × Bool
  unfolding with_limit refilled spend
  take limit now b = spend (refilled now (with_limit limit b))

  -- The steps of Allow: the look-up; a new bucket, where none was found; the token.
  abbrev pub look_up : String → TokenBucketLimiter float → Option ℕ
  look_up key l = get l.buckets key

  unfoldable pub store_bucket :
      String → Rate float → ℕ → TokenBucketLimiter float → TokenBucketLimiter float
  store_bucket key limit now l = record l {
    buckets = put l.buckets key l.fresh;
    cells = λ a. if nat_eq a l.fresh then new_bucket limit now else l.cells a;
    fresh = suc l.fresh;
  }

  unfoldable pub take_at :
      ℕ → Rate float → ℕ → TokenBucketLimiter float → TokenBucketLimiter float × Bool
  take_at address limit now l =
      let (b, allowed) = take limit now (l.cells address) in
      (record l { cells = λ a. if nat_eq a address then b else l.cells a }, allowed)

  -- Allow, where the clock shows `created` when a bucket is made and `now` when the token is taken
  unfoldable pub allow :
      String → Rate float → ℕ → ℕ → TokenBucketLimiter float → TokenBucketLimiter float × Bool
  allow key limit created now l = elim (look_up key l) [
    | some address ↦ take_at address limit now l
    | none ↦ take_at l.fresh limit now (store_bucket key limit created l)
  ]

  -- Close
  abbrev pub close : TokenBucketLimiter float → TokenBucketLimiter float
  close l = record l { stopped = true }

  keep_recent : ℕ → (ℕ → Bucket float) → Map ℕ → Map ℕ
  keep_recent now cells [] = []
  keep_recent now cells ((key, address) ∷ m) =
      let rest = keep_recent now cells m in
      if ltb ((cells address).last_refill + 300_000_000_000) now
      then rest
      else (key, address) ∷ rest

  -- removeOldBuckets
  unfoldable pub remove_old_buckets : ℕ → TokenBucketLimiter float → TokenBucketLimiter float
  unfolding keep_recent
  remove_old_buckets now l = record l { buckets = keep_recent now l.cells l.buckets }

-- What the interceptor and the HTTP handler make of Allow's answer
pub data Limited (A : Type 0) : Type 0 where
  rate_limit_exceeded : String → Limited A
  passed_on : A → Limited A

-- RateLimitInterceptor and RateLimitHTTPHandler, with the request's key
unfoldable pub rate_limit :
    {A : Type 0} (float : Float64)
    → String
    → Rate float
    → ℕ
    → ℕ
    → A
    → TokenBucketLimiter float
    → TokenBucketLimiter float × Limited A
rate_limit float key limit created now next l =
    let (l', allowed) = allow float key limit created now l in
    (l', if allowed then passed_on next else rate_limit_exceeded key)

-- DefaultRateLimitKeyExtractor and HTTPRateLimitKeyExtractor, from the header X-Plugin-Runtime-ID and the
-- remote address
abbrev pub rate_limit_key : String → String → String
rate_limit_key runtime_id address =
    if not (runtime_id == "") then "runtime:" <> runtime_id else "ip:" <> address
