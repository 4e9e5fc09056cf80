-- ===== src/Samples/Breakers.antt =====
-- A circuit breaker that trips after two failures, and a call that is tried three times.
use connect_plugin_go.Prelude.{
  ℕ, ◌+◌, ◌≡◌, refl, true, false, not, ◌&&◌, Option, none, some, List, [], ◌∷◌, ◌++◌, length,
  nat_eq, if◌then◌else◌,
}
use connect_plugin_go.Prelude.Int.{pos, reaches, elapsed}
use connect_plugin_go.Connect.{Code, unavailable, not_found}
use connect_plugin_go.CircuitBreaker.{
  CircuitBreaker, CircuitBreakerConfig, circuit_closed, circuit_open, circuit_half_open,
  new_circuit_breaker, default_is_failure, allow_request, record_result, Event, ask, report, begin,
  step, run, breaker_open,
}
use connect_plugin_go.CircuitBreaker.Invariant.{IsValid, run_new-IsValid}
use connect_plugin_go.CircuitBreaker.Goroutines.{
  Turn, starts, calls_back, resumes, turns, turn, share, IsSound, turns_new-IsSound,
  turns_new-IsValid,
}
use connect_plugin_go.CircuitBreaker.Goroutines.Callbacks.{Walk, pairs, turns_new-Walk}
use connect_plugin_go.CircuitBreaker.Interceptor.{rejected, returned, intercept, intercept_outcome}
use connect_plugin_go.CircuitBreaker.Trips.{
  reports, is_open, trips_at_threshold, recovers_at_threshold, half_open_failure_reopens,
}
use connect_plugin_go.Retry.{RetryPolicy, Surroundings, err, attempts_of, judge_of, retry}
use connect_plugin_go.Retry.Attempts.{EndsFrom, retry_ends}

-- An error is its code.
abbrev code_of : Code → Code
code_of c = c

abbrev config : CircuitBreakerConfig Code
config = record {
  failure_threshold = pos 2;
  success_threshold = pos 2;
  timeout = pos 100;
  is_failure = none;
  on_state_change = true;
}

abbrev new : CircuitBreaker Code
new = new_circuit_breaker code_of config

abbrev failures : List (ℕ × Option Code)
failures = (1, some unavailable) ∷ (2, some unavailable) ∷ []

abbrev successes : List (ℕ × Option Code)
successes = (203, none) ∷ (204, some not_found) ∷ []

-- Two failures, then a probe after the timeout.
abbrev events : List (Event Code)
events = report 1 (some unavailable) ∷ report 2 (some unavailable) ∷ ask 202 ∷ []

abbrev probing : CircuitBreaker Code
probing = run new events

-- One goroutine's request makes the breaker half open; while it is in the callback, another's failure
-- reopens the breaker, and that goroutine's call of the callback is the first of the two.
abbrev overtaken : List (Turn Code)
overtaken =
    starts (report 1 (some unavailable))
    ∷ starts (report 2 (some unavailable))
    ∷ calls_back 0
    ∷ resumes 0
    ∷ starts (ask 202)
    ∷ starts (report 203 (some unavailable))
    ∷ calls_back 1
    ∷ resumes 0
    ∷ calls_back 0
    ∷ resumes 0
    ∷ []

turns_new-IsSound_example : IsSound (turns (share new) overtaken).breaker
turns_new-IsSound_example = turns_new-IsSound code_of config overtaken

open_without_failures :
    let cb = (turns (share new) overtaken).breaker in
    (cb.state ≡ circuit_open)
    × (cb.consecutive_failures ≡ 0)
    × (cb.notified
        ≡ (circuit_closed, circuit_open)
          ∷ (circuit_half_open, circuit_open)
          ∷ (circuit_open, circuit_half_open)
          ∷ [])
unfolding turns turn begin new_circuit_breaker default_is_failure
open_without_failures = (refl, refl, refl)

-- Another goroutine's failure falls into the callback, and the calls are made in order.
abbrev in_order : List (Turn Code)
in_order =
    starts (report 1 (some unavailable))
    ∷ starts (report 2 (some unavailable))
    ∷ calls_back 0
    ∷ resumes 0
    ∷ starts (ask 202)
    ∷ starts (report 203 (some unavailable))
    ∷ calls_back 0
    ∷ []

turns_new-Walk_example :
    let s = turns (share new) in_order in
    Walk circuit_closed (s.breaker.notified ++ pairs s.leaving) s.breaker.state
turns_new-Walk_example = turns_new-Walk code_of config in_order refl (refl, (refl, tt))

walked :
    let s = turns (share new) in_order in
    s.breaker.notified ++ pairs s.leaving
    ≡ (circuit_closed, circuit_open)
      ∷ (circuit_open, circuit_half_open)
      ∷ (circuit_half_open, circuit_open)
      ∷ []
unfolding turns turn begin new_circuit_breaker default_is_failure
walked = refl

abbrev silent : CircuitBreakerConfig Code
silent = record config { on_state_change = false }

turns_new-IsValid_example :
    let s = turns (share (new_circuit_breaker code_of silent)) overtaken in
    (s.leaving ≡ []) × (s.returning ≡ []) × IsValid s.breaker
turns_new-IsValid_example = turns_new-IsValid code_of silent overtaken refl

trips_at_threshold_example :
    (run new (reports failures)).state
    ≡ (if reaches (0 + length failures) (pos 2) then circuit_open else circuit_closed)
unfolding run new_circuit_breaker default_is_failure
trips_at_threshold_example =
    trips_at_threshold new failures (run_new-IsValid code_of config []) refl (refl, (refl, tt))

probing_half_open : probing.state ≡ circuit_half_open
unfolding run step record_result allow_request new_circuit_breaker default_is_failure
probing_half_open = refl

recovers_at_threshold_example : (run probing (reports successes)).state ≡ (
    if reaches (probing.consecutive_successes + length successes) probing.success_threshold
    then circuit_closed
    else circuit_half_open)
unfolding run step record_result allow_request new_circuit_breaker default_is_failure
recovers_at_threshold_example =
    recovers_at_threshold probing successes (run_new-IsValid code_of config events) refl
      (refl, (refl, tt))

half_open_failure_reopens_example :
    let cb' = record_result 203 (some unavailable) probing in
    (cb'.state ≡ circuit_open) × ((allow_request 300 cb').1 ≡ elapsed 203 300 probing.timeout)
unfolding run step record_result allow_request new_circuit_breaker default_is_failure
half_open_failure_reopens_example =
    half_open_failure_reopens probing 203 300 (some unavailable) refl refl

intercept_outcome_example :
    let tripped = run new (reports failures) in
    intercept {A = ℕ} 50 (some 7) none 60 tripped ≡ (
      if is_open tripped.state && not (elapsed tripped.last_failure_time 50 tripped.timeout)
      then (tripped, rejected breaker_open)
      else (record_result 60 none (allow_request 50 tripped).0, returned (some 7) none))
intercept_outcome_example = intercept_outcome 50 60 (some 7) none (run new (reports failures))

-- The first attempt fails with an error worth a retry, the second with one that is not.
abbrev surroundings : Surroundings ℕ Code
surroundings = record {
  context_error = λ n. none;
  next = λ n. if nat_eq n 1 then err unavailable else err not_found;
  done_in_wait = λ n. false;
}

abbrev policy : RetryPolicy Code
policy = record { max_attempts = pos 3; is_retryable = none }

retry_ends_example :
    EndsFrom
      (judge_of code_of policy)
      surroundings
      (attempts_of policy)
      1
      (retry code_of policy surroundings)
retry_ends_example = retry_ends code_of policy surroundings
