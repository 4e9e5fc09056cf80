-- ===== src/CircuitBreaker/Interceptor.antt =====
-- CircuitBreakerInterceptor of circuitbreaker.go.
use connect_plugin_go.Prelude.{
  ℕ, ◌≡◌, refl, not, ◌&&◌, inl, inr, Bool-cases, Option-cases, Option, none, some, arith,
  if◌then◌else◌,
}
use connect_plugin_go.Prelude.Int.{elapsed}
use connect_plugin_go.CircuitBreaker.{
  CircuitBreaker, CallError, breaker_open, call, allow_request, record_result,
}
use connect_plugin_go.CircuitBreaker.Trips.{is_open, call_outcome}

-- What the interceptor returns: the breaker's error, or the response and the error that `next` has left
pub data Answer (A Error : Type 0) : Type 0 where
  rejected : CallError Error → Answer A Error
  returned : Option A → Option Error → Answer A Error

module _ {A Error : Type 0} where
  -- `err != nil && callErr == nil`
  answer_of : Option (CallError Error) → Option A → Option Error → Answer A Error
  answer_of none resp call_err = returned resp call_err
  answer_of (some e) resp none = rejected e
  answer_of (some e) resp (some call_err) = returned resp (some call_err)

  -- `resp` and `next_err` are what `next` answers where it is called, and `later` the time when it does.
  unfoldable pub intercept :
      ℕ → Option A → Option Error → ℕ → CircuitBreaker Error → CircuitBreaker Error × Answer A Error
  unfolding answer_of
  intercept now resp next_err later cb =
      let (cb', err, called) = call now next_err later cb in
      (cb', answer_of err (if called then resp else none) (if called then next_err else none))

  -- Through the interceptor a call is rejected with the breaker's error exactly when the breaker is open
  -- and its timeout has not yet passed since the last recorded failure; then `next` is not called and the
  -- breaker stays as it was. Any other call returns just what `next` answers, response and error, and its
  -- error is recorded when `next` is done.
  pub intercept_outcome :
      (now later : ℕ) (resp : Option A) (next_err : Option Error) (cb : CircuitBreaker Error)
      → intercept now resp next_err later cb ≡ (
          if is_open cb.state && not (elapsed cb.last_failure_time now cb.timeout)
          then (cb, rejected breaker_open)
          else (record_result later next_err (allow_request now cb).0, returned resp next_err))
  unfolding intercept answer_of
  intercept_outcome now later resp next_err cb =
      let (called, err, after) = call_outcome now later next_err cb in
      elim (Bool-cases (is_open cb.state && not (elapsed cb.last_failure_time now cb.timeout))) [
        | inl refused ↦ rw (refused, after, err, called, refused) refl
        | inr admitted ↦ elim (Option-cases next_err) [
          | inl e ↦ ground (arith, called, err, after)
          | inr (x, e) ↦ ground (arith, called, err, after)
        ]
      ]
