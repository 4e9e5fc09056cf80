-- ===== src/Retry/Attempts.antt =====
-- What the retry loop returns, against a description that has no loop.
use connect_plugin_go.Prelude.{
  ℕ, zero, suc, ◌+◌, ◌-◌, ◌≤◌, ◌<◌, ◌≡◌, refl, ◌⊎◌, inl, inr, Bool, true, false, not, ◌&&◌, Option,
  none, some, arith, nat_eq, if◌then◌else◌, Bool-cases, Option-cases,
}
use native.Mathlib.Decide.{dec_lt}
use connect_plugin_go.Prelude.Int.{ℤ, pos, negsuc, is_nonpositive}
use connect_plugin_go.CircuitBreaker.{default_is_failure}
use connect_plugin_go.Connect.{Code}
use connect_plugin_go.Retry.{
  RetryPolicy, Response, ok, err, Surroundings, Outcome, response, failure, attempts_of, attempts,
  judge_of, retry, default_is_retryable, or_last,
}

pub Response-cases :
    {A Error : Type 0} (r : Response A Error) → ((a : A) × (r ≡ ok a)) ⊎ ((e : Error) × (r ≡ err e))
Response-cases (ok a) = inl (a, refl)
Response-cases (err e) = inr (e, refl)

Int-cases : (z : ℤ) → ((n : ℕ) × (z ≡ pos (suc n))) ⊎ (is_nonpositive z ≡ true)
Int-cases (pos zero) = inr refl
Int-cases (pos (suc n)) = inl (n, refl)
Int-cases (negsuc n) = inr refl

module _ {A Error : Type 0} (is_retryable : Option Error → Bool) (s : Surroundings A Error) where
  abbrev pub is_retryable_failure : Response A Error → Bool
  is_retryable_failure (ok a) = false
  is_retryable_failure (err e) = is_retryable (some e)

  abbrev pub is_none : Option Error → Bool
  is_none none = true
  is_none (some e) = false

  abbrev pub error_of : Response A Error → Option Error
  error_of (ok a) = none
  error_of (err e) = some e

  -- Attempt i is made, fails with an error worth a retry, and the wait behind it runs its time.
  abbrev pub goes_on : ℕ → Bool
  goes_on i =
      is_none (s.context_error i) && is_retryable_failure (s.next i) && not (s.done_in_wait i)

  -- The error of the attempt before attempt n.
  abbrev pub last_before : ℕ → Option Error
  last_before zero = none
  last_before (suc zero) = none
  last_before (suc (suc i)) = error_of (s.next (suc i))

  -- How the call ends at attempt n of at most `max`.
  pub data Ends (max n : ℕ) : Outcome A Error → Type 0 where
    context_done :
        {e : Error}
        → s.context_error n ≡ some e
        → Ends max n (failure (or_last is_retryable s e (last_before n)) (n - 1))
    succeeded : {a : A} → s.context_error n ≡ none → s.next n ≡ ok a → Ends max n (response a n)
    failed :
        {e : Error}
        → s.context_error n ≡ none
        → s.next n ≡ err e
        → (is_retryable (some e) && not (nat_eq n max) && not (s.done_in_wait n)) ≡ false
        → Ends max n (failure e n)

  -- The end of the loop from attempt n on.
  pub record EndsFrom (max n : ℕ) (o : Outcome A Error) : Type 0 where
    pub at : ℕ
    pub from : n ≤ at
    pub within : at ≤ max
    pub before : (i : ℕ) → n ≤ i → i < at → goes_on i ≡ true
    pub ends : Ends max at o

  -- One round of the loop, by what it meets.
  attempts_done :
      (max left n : ℕ) (last : Option Error) {e : Error}
      → s.context_error n ≡ some e
      → attempts is_retryable s max (suc left) n last
        ≡ failure (or_last is_retryable s e last) (n - 1)
  unfolding attempts
  attempts_done max left n last c = ground arith

  attempts_ok :
      (max left n : ℕ) (last : Option Error) {a : A}
      → s.context_error n ≡ none
      → s.next n ≡ ok a
      → attempts is_retryable s max (suc left) n last ≡ response a n
  unfolding attempts
  attempts_ok max left n last c r = ground arith

  attempts_err :
      (max left n : ℕ) (last : Option Error) {e : Error}
      → s.context_error n ≡ none
      → s.next n ≡ err e
      → attempts is_retryable s max (suc left) n last ≡ (
          if is_retryable (some e) && not (nat_eq n max) && not (s.done_in_wait n)
          then attempts is_retryable s max left (suc n) (some e)
          else failure e n)
  unfolding attempts
  attempts_err max left n last c r = ground arith

  at_once : (max n : ℕ) {o : Outcome A Error} → n ≤ max → Ends max n o → EndsFrom max n o
  at_once max n le ends = record {
    at = n;
    from = omega arith;
    within = le;
    before = λ i p q. absurd (omega arith);
    ends = ends;
  }

  later :
      (max n : ℕ) {o : Outcome A Error}
      → goes_on n ≡ true
      → EndsFrom max (suc n) o
      → EndsFrom max n o
  later max n goes rest = record {
    at = rest.at;
    from = omega (arith, rest.from);
    within = rest.within;
    before = λ i p q. elim (dec_lt n i) [
      | yes more ↦ rest.before i more q
      | no less ↦ let e : i ≡ n = omega arith in rw e goes
    ];
    ends = rest.ends;
  }

  Continues : ℕ → ℕ → ℕ → Type 0
  Continues max m zero = Unit
  Continues max m (suc left) =
      EndsFrom max (suc (suc m))
        (attempts is_retryable s max (suc left) (suc (suc m)) (last_before (suc (suc m))))

  after_err :
      (max left m : ℕ) (e : Error)
      → suc m + left ≡ max
      → s.context_error (suc m) ≡ none
      → s.next (suc m) ≡ err e
      → Continues max m left
      → EndsFrom max (suc m) (
          if is_retryable (some e) && not (nat_eq (suc m) max) && not (s.done_in_wait (suc m))
          then attempts is_retryable s max left (suc (suc m)) (some e)
          else failure e (suc m))
  unfolding Continues
  after_err max zero m e all c r rest =
      let stop : (is_retryable (some e) && not (nat_eq (suc m) max) && not (s.done_in_wait (suc m)))
          ≡ false =
        ground arith in
      rw stop (at_once max (suc m) (omega arith) (failed c r stop))
  after_err max (suc left) m e all c r rest =
      elim (Bool-cases
        (is_retryable (some e) && not (nat_eq (suc m) max) && not (s.done_in_wait (suc m)))) [
          | inl more ↦ rw more (later max (suc m) (ground arith) (rw r at rest))
          | inr stop ↦ rw stop (at_once max (suc m) (omega arith) (failed c r stop))
        ]

  round-EndsFrom :
      (max left m : ℕ)
      → suc m + left ≡ max
      → Continues max m left
      → EndsFrom max (suc m) (attempts is_retryable s max (suc left) (suc m) (last_before (suc m)))
  round-EndsFrom max left m all rest = elim (Option-cases (s.context_error (suc m))) [
    | inr (e, c) ↦
        rw (attempts_done max left (suc m) (last_before (suc m)) c)
          (at_once max (suc m) (omega arith) (context_done c))
    | inl c ↦ elim (Response-cases (s.next (suc m))) [
      | inl (a, r) ↦
          rw (attempts_ok max left (suc m) (last_before (suc m)) c r)
            (at_once max (suc m) (omega arith) (succeeded c r))
      | inr (e, r) ↦
          rw (attempts_err max left (suc m) (last_before (suc m)) c r)
            (after_err max left m e all c r rest)
    ]
  ]

  attempts-EndsFrom :
      (max left m : ℕ)
      → suc m + left ≡ max
      → EndsFrom max (suc m) (attempts is_retryable s max (suc left) (suc m) (last_before (suc m)))
  unfolding Continues
  attempts-EndsFrom max zero m all = round-EndsFrom max zero m all tt
  attempts-EndsFrom max (suc left) m all =
      round-EndsFrom max (suc left) m all (attempts-EndsFrom max left (suc m) (omega arith))

attempts_of-pos :
    {Error : Type 0} (policy : RetryPolicy Error) → (left : ℕ) × (attempts_of policy ≡ suc left)
attempts_of-pos policy = elim (Int-cases policy.max_attempts) [
  | inl (n, e) ↦ (n, rw e)
  | inr e ↦ (2, rw e)
]

-- Every call through the interceptor ends at one attempt between the first and the policy's limit
-- (3 where the limit is not positive). All attempts before it were made and failed with an error
-- worth a retry, with the wait behind them run to its end. At that attempt the context was done, and
-- the last error is returned, or else the context's, with one call fewer made; or the attempt
-- succeeded, and its response is returned; or it failed with an error not worth a retry, or as the
-- last attempt allowed, or the context was done in the wait behind it, and its error is returned.
pub retry_ends :
    {A Error : Type 0} (code_of : Error → Code) (policy : RetryPolicy Error)
    (s : Surroundings A Error)
    → EndsFrom (judge_of code_of policy) s (attempts_of policy) 1 (retry code_of policy s)
unfolding retry
retry_ends code_of policy s =
    let (left, e) = attempts_of-pos policy in
    rw e (attempts-EndsFrom (judge_of code_of policy) s (suc left) left 0 (omega arith))

-- The retry interceptor's default and the circuit breaker's default count the same errors.
pub default_is_retryable-eq :
    {Error : Type 0} (code_of : Error → Code) (e : Option Error)
    → default_is_retryable code_of e ≡ default_is_failure code_of e
unfolding default_is_retryable default_is_failure
default_is_retryable-eq code_of e = ground arith
