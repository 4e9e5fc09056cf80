-- ===== src/Ratelimit/Burst.antt =====
-- How many requests a token bucket admits at once.
use connect_plugin_go.Prelude.{
  ℕ, zero, suc, ◌≤◌, ◌-◌, String, ◌≡◌, refl, sym, ap, ◌∙◌, Bool, true, false, none, some, List, [],
  ◌∷◌, arith, eq_self, leb, ltb, nat_eq, if◌then◌else◌,
}
use connect_plugin_go.Prelude.Int.{ℤ, pos}
use connect_plugin_go.Prelude.Maps.{get, get-put}
use connect_plugin_go.Ratelimit.{
  Float64, Rate, Bucket, TokenBucketLimiter, new_bucket, with_limit, refilled, spend, take,
  store_bucket, take_at, allow,
}

-- Integers that float64 holds exactly
abbrev pub exact_bound : ℕ
exact_bound = 9_007_199_254_740_992

-- What float64 does on such integers and at no time elapsed, with a rate that is a number
pub record IsExact (float : Float64) (rate : float.Number) : Type 0 where
  pub equal_self :
      (n : ℕ) → n ≤ exact_bound → float.equal (float.of_int (pos n)) (float.of_int (pos n)) ≡ true
  pub equal_rate : float.equal rate rate ≡ true
  pub still :
      (n : ℕ)
      → n ≤ exact_bound
      → float.plus (float.of_int (pos n)) (float.times (float.seconds 0) rate)
        ≡ float.of_int (pos n)
  pub greater_ints :
      (m n : ℕ)
      → m ≤ exact_bound
      → n ≤ exact_bound
      → float.greater (float.of_int (pos m)) (float.of_int (pos n)) ≡ ltb n m
  pub at_least_one :
      (n : ℕ)
      → n ≤ exact_bound
      → float.at_least (float.of_int (pos n)) (float.of_int (pos 1)) ≡ leb 1 n
  pub minus_one :
      (n : ℕ)
      → suc n ≤ exact_bound
      → float.minus (float.of_int (pos (suc n))) (float.of_int (pos 1)) ≡ float.of_int (pos n)

-- The answers to so many requests when there are so many tokens
unfoldable pub answers : ℕ → ℕ → List Bool
answers zero tokens = []
answers (suc k) zero = false ∷ answers k zero
answers (suc k) (suc n) = true ∷ answers k n

module _ (float : Float64) where
  -- The answers of Allow to a row of requests for one key at one instant
  unfoldable pub ask : ℕ → String → Rate float → ℕ → TokenBucketLimiter float → List Bool
  ask zero key limit now l = []
  ask (suc k) key limit now l =
      let (l', allowed) = allow float key limit now now l in allowed ∷ ask k key limit now l'

  -- A bucket of the limit, refilled just now, with so many tokens
  abbrev holding : Rate float → ℕ → ℕ → Bucket float
  holding limit now n = record {
    tokens = float.of_int (pos n);
    capacity = float.of_int limit.burst;
    refill_rate = limit.requests_per_second;
    last_refill = now;
  }

  module _ (limit : Rate float) (now b : ℕ) (exact : IsExact float limit.requests_per_second)
      (whole : limit.burst ≡ pos b) (small : b ≤ exact_bound) where
    with_limit-holding :
        (n : ℕ) → with_limit float limit (holding limit now n) ≡ holding limit now n
    unfolding with_limit
    with_limit-holding n =
        let same : float.equal (float.of_int limit.burst) (float.of_int limit.burst) ≡ true =
          rw whole (exact.equal_self b small) in
        rw (with_limit, same, exact.equal_rate) refl

    refilled-holding :
        (n : ℕ) → n ≤ b → refilled float now (holding limit now n) ≡ holding limit now n
    unfolding refilled
    refilled-holding n fits =
        let at_once : now - now ≡ 0 = omega arith in
        let below : float.greater (float.of_int (pos n)) (float.of_int limit.burst) ≡ false =
          rw (whole, exact.greater_ints n b (omega arith) small) (ground arith) in
        rw (refilled, at_once, exact.still n (omega arith), below) refl

    take-spend :
        (n : ℕ)
        → n ≤ b
        → take float limit now (holding limit now n) ≡ spend float (holding limit now n)
    unfolding take
    take-spend n fits =
        ap (λ x. spend float (refilled float now x)) (with_limit-holding n)
        ∙ ap (spend float) (refilled-holding n fits)

    take-none : take float limit now (holding limit now 0) ≡ (holding limit now 0, false)
    unfolding spend
    take-none =
        let lacks : float.at_least (float.of_int (pos 0)) (float.of_int (pos 1)) ≡ false =
          rw (exact.at_least_one 0 (omega arith)) (ground arith) in
        take-spend 0 (omega arith) ∙ rw (spend, lacks) refl

    take-one :
        (n : ℕ)
        → suc n ≤ b
        → take float limit now (holding limit now (suc n)) ≡ (holding limit now n, true)
    unfolding spend
    take-one n fits =
        let enough : float.at_least (float.of_int (pos (suc n))) (float.of_int (pos 1)) ≡ true =
          rw (exact.at_least_one (suc n) (omega arith)) (ground arith) in
        take-spend (suc n) fits ∙ rw (spend, enough, exact.minus_one n (omega arith)) refl

    abbrev after : TokenBucketLimiter float → ℕ → ℕ → TokenBucketLimiter float
    after l address n = record l {
      cells = λ a. if nat_eq a address then holding limit now n else l.cells a;
    }

    ask-holding :
        (k n address : ℕ) (key : String) (l : TokenBucketLimiter float)
        → n ≤ b
        → get l.buckets key ≡ some address
        → l.cells address ≡ holding limit now n
        → ask k key limit now l ≡ answers k n
    unfolding ask answers allow take_at
    ask-holding zero n address key l fits known held = refl
    ask-holding (suc k) zero address key l fits known held =
        rw (ask, allow, known, take_at, held, take-none)
          (ap (λ r. false ∷ r)
            (ask-holding k 0 address key (after l address 0) fits known (ground arith)))
    ask-holding (suc k) (suc n) address key l fits known held =
        rw (ask, allow, known, take_at, held, take-one n fits)
          (ap (λ r. true ∷ r)
            (ask-holding k n address key (after l address n) (omega arith) known (ground arith)))

module _ (float : Float64) where
  allow_known :
      (limit : Rate float) (now : ℕ) (key : String) (l : TokenBucketLimiter float) (address : ℕ)
      → get l.buckets key ≡ some address
      → allow float key limit now now l ≡ take_at float address limit now l
  unfolding allow
  allow_known limit now key l address known = rw (allow, known) refl

  allow_new :
      (limit : Rate float) (now : ℕ) (key : String) (l : TokenBucketLimiter float)
      → get l.buckets key ≡ none
      → allow float key limit now now l
        ≡ take_at float l.fresh limit now (store_bucket float key limit now l)
  unfolding allow
  allow_new limit now key l absent = rw (allow, absent) refl

  stored_cell :
      (l : TokenBucketLimiter float) (key : String) (limit : Rate float) (now : ℕ)
      → (store_bucket float key limit now l).cells l.fresh ≡ new_bucket float limit now
  unfolding store_bucket
  stored_cell l key limit now = ground arith

-- On integers that float64 holds exactly: of any number of requests that come one after another at one
-- instant, for a key without a bucket, Allow admits the first ones up to the burst, and no more.
pub burst_is_limited :
    (float : Float64) (limit : Rate float) (now b k : ℕ) (key : String)
    (l : TokenBucketLimiter float)
    → IsExact float limit.requests_per_second
    → limit.burst ≡ pos b
    → b ≤ exact_bound
    → get l.buckets key ≡ none
    → ask float k key limit now l ≡ answers k b
unfolding ask answers allow take_at store_bucket
burst_is_limited float limit now b zero key l exact whole small absent = refl
burst_is_limited float limit now b (suc k) key l exact whole small absent =
    let stored = store_bucket float key limit now l in
    let known : get stored.buckets key ≡ some l.fresh =
      get-put l.buckets key key l.fresh ∙ rw (eq_self key) refl in
    let held : stored.cells l.fresh ≡ holding float limit now b =
      stored_cell float l key limit now
      ∙ ap
          (λ (z : ℤ). record {
            tokens = float.of_int z;
            capacity = float.of_int limit.burst;
            refill_rate = limit.requests_per_second;
            last_refill = now;
          })
          whole in
    let same : allow float key limit now now l ≡ allow float key limit now now stored =
      allow_new float limit now key l absent
      ∙ sym (allow_known float limit now key stored l.fresh known) in
    ap (λ r. r.1 ∷ ask float k key limit now r.0) same
    ∙ ask-holding float limit now b exact whole small (suc k) b l.fresh key stored (omega arith)
        known held
