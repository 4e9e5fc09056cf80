-- ===== src/CircuitBreaker.antt =====
-- circuitbreaker.go: the three-state circuit breaker. `time.Now()` is an argument of the operations
-- that read it; the calls of `OnStateChange` are recorded, in order, in `notified`. setState gives up
-- the lock for the time of the callback. An operation is therefore cut in two: what it does up to
-- there (`begin`), and what it has left to do after the callback (`AfterChange`, `resume`).
-- `allow_request`, `record_result`, `call` and `run` are the operations of goroutines of which none
-- comes between another's two parts; CircuitBreaker/Goroutines.antt interleaves the parts.
-- A counter counts calls, and stays below 2^63.
pub mod Invariant
pub mod Trips
pub mod Interceptor
pub mod Goroutines
use connect_plugin_go.Prelude.{
  ℕ, suc, Bool, true, false, Option, none, some, List, [], ◌∷◌, ◌++◌, if◌then◌else◌,
}
use connect_plugin_go.Prelude.Int.{ℤ, pos, is_nonpositive, is_zero, reaches, elapsed}
use connect_plugin_go.Connect.{
  Code, unavailable, resource_exhausted, internal, unknown, deadline_exceeded,
}

pub data CircuitState : Type 0 where
  circuit_closed circuit_open circuit_half_open : CircuitState

-- `is_failure` is nil or a function of a possibly nil error; of the callback only its presence
-- matters here.
pub record CircuitBreakerConfig (Error : Type 0) : Type 0 where
  pub failure_threshold : ℤ
  pub success_threshold : ℤ
  pub timeout : ℤ
  pub is_failure : Option (Option Error → Bool)
  pub on_state_change : Bool

-- The fields of the configuration have their defaults filled in.
pub record CircuitBreaker (Error : Type 0) : Type 0 where
  pub failure_threshold : ℤ
  pub success_threshold : ℤ
  pub timeout : ℤ
  pub is_failure : Option Error → Bool
  pub on_state_change : Bool
  pub state : CircuitState
  pub consecutive_failures : ℕ
  pub consecutive_successes : ℕ
  pub last_failure_time : ℕ
  pub notified : List (CircuitState × CircuitState)

abbrev is_failure_code : Code → Bool
is_failure_code unavailable = true
is_failure_code resource_exhausted = true
is_failure_code internal = true
is_failure_code unknown = true
is_failure_code deadline_exceeded = true
is_failure_code _ = false

-- `code_of` is `connect.CodeOf`.
unfoldable pub default_is_failure : {Error : Type 0} → (Error → Code) → Option Error → Bool
default_is_failure code_of none = false
default_is_failure code_of (some e) = is_failure_code (code_of e)

abbrev or_default : {F : Type 0} → Option F → F → F
or_default none d = d
or_default (some f) d = f

unfoldable pub default_config : {Error : Type 0} → (Error → Code) → CircuitBreakerConfig Error
default_config code_of = record {
  failure_threshold = pos 5;
  success_threshold = pos 2;
  timeout = pos 10_000_000_000;
  is_failure = some (default_is_failure code_of);
  on_state_change = false;
}

unfoldable pub new_circuit_breaker :
    {Error : Type 0} → (Error → Code) → CircuitBreakerConfig Error → CircuitBreaker Error
new_circuit_breaker code_of config = record {
  failure_threshold =
      if is_nonpositive config.failure_threshold then pos 5 else config.failure_threshold;
  success_threshold =
      if is_nonpositive config.success_threshold then pos 2 else config.success_threshold;
  timeout = if is_zero config.timeout then pos 10_000_000_000 else config.timeout;
  is_failure = or_default config.is_failure (default_is_failure code_of);
  on_state_change = config.on_state_change;
  state = circuit_closed;
  consecutive_failures = 0;
  consecutive_successes = 0;
  last_failure_time = 0;
  notified = [];
}

pub data CallError (Error : Type 0) : Type 0 where
  breaker_open : CallError Error  -- CodeUnavailable
  from_fn : Error → CallError Error

-- The operations that goroutines make, in the order in which they take the lock.
pub data Event (Error : Type 0) : Type 0 where
  ask : ℕ → Event Error
  report : ℕ → Option Error → Event Error

-- What an operation does after setState, when it holds the lock again.
pub data AfterChange : Type 0 where
  keep_counters reset_successes reset_counters : AfterChange

-- A goroutine that has given up the lock in setState: the callback's two arguments, and what is left.
pub record Change : Type 0 where
  pub from : CircuitState
  pub to : CircuitState
  pub after : AfterChange

module _ {Error : Type 0} where
  abbrev pub resume : AfterChange → CircuitBreaker Error → CircuitBreaker Error
  resume keep_counters cb = cb
  resume reset_successes cb = record cb { consecutive_successes = 0 }
  resume reset_counters cb = record cb { consecutive_successes = 0; consecutive_failures = 0 }

  -- `cb.config.OnStateChange(oldState, newState)`
  abbrev pub notify : Change → CircuitBreaker Error → CircuitBreaker Error
  notify c cb = record cb { notified = cb.notified ++ (c.from, c.to) ∷ [] }

  -- setState, up to where it gives up the lock. Where there is no callback, the operation goes on
  -- to its end.
  unfoldable pub set_state :
      CircuitState → AfterChange → CircuitBreaker Error → CircuitBreaker Error × Option Change
  set_state new after cb =
      let changed = record cb { state = new } in
      if cb.on_state_change
      then (changed, some (record { from = cb.state; to = new; after = after }))
      else (resume after changed, none)

  allow_in : CircuitState → ℕ → CircuitBreaker Error → (CircuitBreaker Error × Option Change) × Bool
  unfolding set_state
  allow_in circuit_closed now cb = ((cb, none), true)
  allow_in circuit_open now cb =
      if elapsed cb.last_failure_time now cb.timeout
      then (set_state circuit_half_open reset_counters cb, true)
      else ((cb, none), false)
  allow_in circuit_half_open now cb = ((cb, none), true)

  closed_failure : ℕ → CircuitBreaker Error → CircuitBreaker Error × Option Change
  unfolding set_state
  closed_failure now cb =
      let failed = record cb {
        consecutive_failures = suc cb.consecutive_failures;
        consecutive_successes = 0;
        last_failure_time = now;
      } in
      if reaches failed.consecutive_failures failed.failure_threshold
      then set_state circuit_open keep_counters failed
      else (failed, none)

  half_open_success : CircuitBreaker Error → CircuitBreaker Error × Option Change
  unfolding set_state
  half_open_success cb =
      let probed = record cb {
        consecutive_successes = suc cb.consecutive_successes;
        consecutive_failures = 0;
      } in
      if reaches probed.consecutive_successes probed.success_threshold
      then set_state circuit_closed reset_successes probed
      else (probed, none)

  record_in : CircuitState → Bool → ℕ → CircuitBreaker Error → CircuitBreaker Error × Option Change
  unfolding set_state closed_failure half_open_success
  record_in circuit_closed true now cb = closed_failure now cb
  record_in circuit_closed false now cb = (
    record cb { consecutive_failures = 0; consecutive_successes = suc cb.consecutive_successes },
    none,
  )
  record_in circuit_open true now cb = (record cb { last_failure_time = now }, none)
  record_in circuit_open false now cb = (cb, none)
  record_in circuit_half_open true now cb =
      set_state circuit_open keep_counters
        (record cb { consecutive_failures = 1; consecutive_successes = 0; last_failure_time = now })
  record_in circuit_half_open false now cb = half_open_success cb

  -- The operation up to its end, or to where it gives up the lock.
  unfoldable pub begin : CircuitBreaker Error → Event Error → CircuitBreaker Error × Option Change
  unfolding allow_in record_in
  begin cb (ask now) = (allow_in cb.state now cb).0
  begin cb (report now err) = record_in cb.state (cb.is_failure err) now cb

  -- The callback and the rest follow at once.
  abbrev alone : CircuitBreaker Error × Option Change → CircuitBreaker Error
  alone (cb, none) = cb
  alone (cb, some c) = resume c.after (notify c cb)

  -- allowRequest
  unfoldable pub allow_request : ℕ → CircuitBreaker Error → CircuitBreaker Error × Bool
  unfolding allow_in
  allow_request now cb = let (begun, allowed) = allow_in cb.state now cb in (alone begun, allowed)

  -- recordResult
  unfoldable pub record_result : ℕ → Option Error → CircuitBreaker Error → CircuitBreaker Error
  unfolding record_in
  record_result now err cb = alone (record_in cb.state (cb.is_failure err) now cb)

  abbrev pub fn_error : Option Error → Option (CallError Error)
  fn_error none = none
  fn_error (some e) = some (from_fn e)

  -- Call: `fn` is called at most once; `result` is what it returns and `later` the time when it
  -- does. The flag tells whether it was called.
  unfoldable pub call :
      ℕ
      → Option Error
      → ℕ
      → CircuitBreaker Error
      → CircuitBreaker Error × Option (CallError Error) × Bool
  unfolding allow_request record_result
  call now result later cb =
      let (admitted, allowed) = allow_request now cb in
      if allowed
      then (record_result later result admitted, fn_error result, true)
      else (admitted, some breaker_open, false)

  unfoldable pub step : CircuitBreaker Error → Event Error → CircuitBreaker Error
  step cb (ask now) = (allow_request now cb).0
  step cb (report now err) = record_result now err cb

  unfoldable pub run : CircuitBreaker Error → List (Event Error) → CircuitBreaker Error
  run cb [] = cb
  run cb (e ∷ es) = run (step cb e) es
