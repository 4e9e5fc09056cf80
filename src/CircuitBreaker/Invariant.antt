-- ===== src/CircuitBreaker/Invariant.antt =====
-- A circuit breaker after a sequence of operations of which none comes between another's two parts.
use connect_plugin_go.Prelude.{ℕ, ◌<◌, ◌≡◌, false, List, [], ◌∷◌, arith}
use connect_plugin_go.Prelude.Int.{ℤ, reaches, is_nonpositive}
use connect_plugin_go.Connect.{Code}
use connect_plugin_go.CircuitBreaker.{
  circuit_closed, circuit_open, circuit_half_open, CircuitBreaker, CircuitBreakerConfig,
  new_circuit_breaker, allow_request, record_result, Event, ask, report, step, run,
}

abbrev pub Below : ℕ → ℤ → Type 0
Below n z = reaches n z ≡ false

pub record IsValid {Error : Type 0} (cb : CircuitBreaker Error) : Type 0 where
  pub threshold_positive : is_nonpositive cb.failure_threshold ≡ false
  pub successes_positive : is_nonpositive cb.success_threshold ≡ false
  pub closed_below : cb.state ≡ circuit_closed → Below cb.consecutive_failures cb.failure_threshold
  pub half_open_below :
      cb.state ≡ circuit_half_open
      → Below cb.consecutive_successes cb.success_threshold × (cb.consecutive_failures ≡ 0)
  pub open_failed : cb.state ≡ circuit_open → 0 < cb.consecutive_failures

pub positive_above : (z : ℤ) → is_nonpositive z ≡ false → reaches 0 z ≡ false
positive_above z h = ground arith

module _ {Error : Type 0} where
  pub new_circuit_breaker-IsValid :
      (code_of : Error → Code) (config : CircuitBreakerConfig Error)
      → IsValid (new_circuit_breaker code_of config)
  unfolding new_circuit_breaker
  new_circuit_breaker-IsValid code_of config = ground arith

  pub step-IsValid :
      (cb : CircuitBreaker Error) (e : Event Error) → IsValid cb → IsValid (step cb e)
  unfolding step allow_request record_result
  step-IsValid cb (ask now) v = ground (arith, positive_above cb.success_threshold)
  step-IsValid cb (report now err) v = ground (arith, positive_above cb.success_threshold)

  run-IsValid :
      (cb : CircuitBreaker Error) (es : List (Event Error)) → IsValid cb → IsValid (run cb es)
  unfolding run
  run-IsValid cb [] v = v
  run-IsValid cb (e ∷ es) v = run-IsValid (step cb e) es (step-IsValid cb e v)

  pub run_new-IsValid :
      (code_of : Error → Code) (config : CircuitBreakerConfig Error) (es : List (Event Error))
      → IsValid (run (new_circuit_breaker code_of config) es)
  run_new-IsValid code_of config es = run-IsValid _ es (new_circuit_breaker-IsValid code_of config)
