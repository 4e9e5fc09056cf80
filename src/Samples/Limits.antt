-- ===== src/Samples/Limits.antt =====
-- A token bucket with whole numbers in place of float64.
use connect_plugin_go.Prelude.{
  ℕ, ◌+◌, ◌-◌, ◌*◌, ◌/◌, ◌≡◌, refl, true, false, [], ◌∷◌, leb, ltb, nat_eq, arith,
}
use connect_plugin_go.Prelude.Int.{ℤ, pos, negsuc}
use connect_plugin_go.Prelude.Maps.{get, put}
use connect_plugin_go.Ratelimit.{
  Float64, Rate, TokenBucketLimiter, new_token_bucket_limiter, allow, take, take_at, store_bucket,
}
use connect_plugin_go.Ratelimit.Burst.{IsExact, ask, answers, burst_is_limited}

abbrev whole : ℤ → ℕ
whole (pos n) = n
whole (negsuc n) = 0

abbrev numbers : Float64
numbers = record {
  Number = ℕ;
  of_int = whole;
  seconds = λ ns. ns / 1_000_000_000;
  plus = λ a b. a + b;
  times = λ a b. a * b;
  minus = λ a b. a - b;
  greater = λ a b. ltb b a;
  at_least = λ a b. leb b a;
  equal = nat_eq;
}

-- Five requests per second, and two at once
abbrev limit : Rate numbers
limit = record { requests_per_second = 5; burst = pos 2 }

numbers-IsExact : IsExact numbers 5
numbers-IsExact = record {
  equal_self = λ n h. ground arith;
  equal_rate = refl;
  still = λ n h. omega arith;
  greater_ints = λ m n h k. refl;
  at_least_one = λ n h. refl;
  minus_one = λ n h. omega arith;
}

abbrev empty : TokenBucketLimiter numbers
empty = new_token_bucket_limiter numbers

burst_is_limited_example : ask numbers 4 "ip:10.0.0.7" limit 100 empty ≡ answers 4 2
unfolding get
burst_is_limited_example =
    burst_is_limited numbers limit 100 2 4 "ip:10.0.0.7" empty numbers-IsExact refl (omega arith)
      refl

two_admitted : ask numbers 4 "ip:10.0.0.7" limit 100 empty ≡ true ∷ true ∷ false ∷ false ∷ []
unfolding ask allow take take_at store_bucket get put
two_admitted = refl

-- Two goroutines that both find no bucket each take from their own: with a burst of one, both are
-- admitted.
abbrev single : Rate numbers
single = record limit { burst = pos 1 }

abbrev raced : TokenBucketLimiter numbers
raced = store_bucket numbers "a" single 100 (store_bucket numbers "a" single 100 empty)

both_admitted :
    ((take_at numbers 0 single 100 raced).1 ≡ true)
    × ((take_at numbers 1 single 100 (take_at numbers 0 single 100 raced).0).1 ≡ true)
unfolding take take_at store_bucket
both_admitted = (refl, refl)
