-- ===== src/CircuitBreaker/Trips.antt =====
-- When the breaker trips, rejects, probes and recovers.
use connect_plugin_go.Prelude.{
  ℕ, suc, ◌+◌, ◌≡◌, refl, inl, inr, Bool, true, false, not, ◌&&◌, Bool-cases, Option, some, List,
  [], ◌∷◌, arith, length, if◌then◌else◌,
}
use connect_plugin_go.Prelude.Int.{ℤ, reaches, elapsed}
use connect_plugin_go.CircuitBreaker.{
  CircuitState, circuit_closed, circuit_open, circuit_half_open, CircuitBreaker, allow_request,
  record_result, Event, report, step, run, call, breaker_open, fn_error,
}
use connect_plugin_go.CircuitBreaker.Invariant.{IsValid}

-- Reports of results, each with the time of its report.
abbrev pub reports : {Error : Type 0} → List (ℕ × Option Error) → List (Event Error)
reports [] = []
reports ((now, err) ∷ rs) = report now err ∷ reports rs

abbrev pub AllJudged :
    {Error : Type 0} → (Option Error → Bool) → Bool → List (ℕ × Option Error) → Type 0
AllJudged judge b [] = Unit
AllJudged judge b ((now, err) ∷ rs) = (judge err ≡ b) × AllJudged judge b rs

abbrev pub is_open : CircuitState → Bool
is_open circuit_open = true
is_open _ = false

reaches_later : (n m : ℕ) (z : ℤ) → reaches n z ≡ true → reaches (n + m) z ≡ true
reaches_later n m z h = ground arith

module _ {Error : Type 0} where
  open_stays :
      (cb : CircuitBreaker Error) (rs : List (ℕ × Option Error))
      → cb.state ≡ circuit_open
      → (run cb (reports rs)).state ≡ circuit_open
  unfolding run step record_result
  open_stays cb [] h = h
  open_stays cb ((now, err) ∷ rs) h = open_stays (record_result now err cb) rs (ground arith)

  -- One failure report in the closed state, below and at the threshold.
  closed_below_threshold :
      (cb : CircuitBreaker Error) (now : ℕ) (err : Option Error)
      → cb.state ≡ circuit_closed
      → cb.is_failure err ≡ true
      → reaches (suc cb.consecutive_failures) cb.failure_threshold ≡ false
      → let cb' = record_result now err cb in
        (cb'.state ≡ circuit_closed)
        × (cb'.consecutive_failures ≡ suc cb.consecutive_failures)
        × (cb'.failure_threshold ≡ cb.failure_threshold)
        × (cb'.is_failure ≡ cb.is_failure)
  unfolding record_result
  closed_below_threshold cb now err c j below = ground arith

  closed_at_threshold :
      (cb : CircuitBreaker Error) (now : ℕ) (err : Option Error)
      → cb.state ≡ circuit_closed
      → cb.is_failure err ≡ true
      → reaches (suc cb.consecutive_failures) cb.failure_threshold ≡ true
      → (record_result now err cb).state ≡ circuit_open
  unfolding record_result
  closed_at_threshold cb now err c j at = ground arith

  trips :
      (rs : List (ℕ × Option Error)) (cb : CircuitBreaker Error) (judge : Option Error → Bool)
      (n : ℕ) (z : ℤ)
      → cb.state ≡ circuit_closed
      → cb.is_failure ≡ judge
      → cb.consecutive_failures ≡ n
      → cb.failure_threshold ≡ z
      → reaches n z ≡ false
      → AllJudged judge true rs
      → (run cb (reports rs)).state
        ≡ (if reaches (n + length rs) z then circuit_open else circuit_closed)
  unfolding run step
  trips [] cb judge n z c j f t below h = ground arith
  trips ((now, err) ∷ rs) cb judge n z c j f t below h =
      elim (Bool-cases (reaches (suc cb.consecutive_failures) cb.failure_threshold)) [
        | inl at ↦ ground (
          arith,
          open_stays (record_result now err cb) rs,
          closed_at_threshold cb now err,
          reaches_later (suc n) (length rs) z,
        )
        | inr less ↦ ground (
          arith,
          trips rs (record_result now err cb) judge (suc n) z,
          closed_below_threshold cb now err,
        )
      ]

  -- Starting from a valid closed breaker, a row of failure reports of any length trips it exactly
  -- when the failures counted before and the new ones together reach the failure threshold.
  pub trips_at_threshold :
      (cb : CircuitBreaker Error) (rs : List (ℕ × Option Error))
      → IsValid cb
      → cb.state ≡ circuit_closed
      → AllJudged cb.is_failure true rs
      → (run cb (reports rs)).state ≡ (
          if reaches (cb.consecutive_failures + length rs) cb.failure_threshold
          then circuit_open
          else circuit_closed)
  trips_at_threshold cb rs v c h = trips rs cb _ _ _ c refl refl refl (v.closed_below c) h

  closed_judged :
      (cb : CircuitBreaker Error) (now : ℕ) (err : Option Error)
      → cb.state ≡ circuit_closed
      → cb.is_failure err ≡ false
      → ((record_result now err cb).state ≡ circuit_closed)
        × ((record_result now err cb).is_failure ≡ cb.is_failure)
  unfolding record_result
  closed_judged cb now err c j = ground arith

  closed_stays :
      (rs : List (ℕ × Option Error)) (cb : CircuitBreaker Error) (judge : Option Error → Bool)
      → cb.state ≡ circuit_closed
      → cb.is_failure ≡ judge
      → AllJudged judge false rs
      → (run cb (reports rs)).state ≡ circuit_closed
  unfolding run step
  closed_stays [] cb judge c j h = c
  closed_stays ((now, err) ∷ rs) cb judge c j h =
      ground (arith, closed_judged cb now err, closed_stays rs (record_result now err cb) judge)

  half_open_more :
      (cb : CircuitBreaker Error) (now : ℕ) (err : Option Error)
      → cb.state ≡ circuit_half_open
      → cb.is_failure err ≡ false
      → let cb' = record_result now err cb in
        (cb'.success_threshold ≡ cb.success_threshold)
        × (cb'.is_failure ≡ cb.is_failure)
        × (cb'.state ≡ (
            if reaches (suc cb.consecutive_successes) cb.success_threshold
            then circuit_closed
            else circuit_half_open))
        × (cb'.state ≡ circuit_half_open → cb'.consecutive_successes ≡ suc cb.consecutive_successes)
  unfolding record_result
  half_open_more cb now err c j = ground arith

  recovers :
      (rs : List (ℕ × Option Error)) (cb : CircuitBreaker Error) (judge : Option Error → Bool)
      (n : ℕ) (z : ℤ)
      → cb.state ≡ circuit_half_open
      → cb.is_failure ≡ judge
      → cb.consecutive_successes ≡ n
      → cb.success_threshold ≡ z
      → reaches n z ≡ false
      → AllJudged judge false rs
      → (run cb (reports rs)).state
        ≡ (if reaches (n + length rs) z then circuit_closed else circuit_half_open)
  unfolding run step
  recovers [] cb judge n z c j f t below h = ground arith
  recovers ((now, err) ∷ rs) cb judge n z c j f t below h =
      elim (Bool-cases (reaches (suc cb.consecutive_successes) cb.success_threshold)) [
        | inl at ↦ ground (
          arith,
          closed_stays rs (record_result now err cb) judge,
          half_open_more cb now err,
          reaches_later (suc n) (length rs) z,
        )
        | inr less ↦ ground (
          arith,
          recovers rs (record_result now err cb) judge (suc n) z,
          half_open_more cb now err,
        )
      ]

  -- Starting from a valid half-open breaker, a row of successful reports of any length closes it
  -- exactly when the successes counted before and the new ones together reach the success
  -- threshold.
  pub recovers_at_threshold :
      (cb : CircuitBreaker Error) (rs : List (ℕ × Option Error))
      → IsValid cb
      → cb.state ≡ circuit_half_open
      → AllJudged cb.is_failure false rs
      → (run cb (reports rs)).state ≡ (
          if reaches (cb.consecutive_successes + length rs) cb.success_threshold
          then circuit_closed
          else circuit_half_open)
  recovers_at_threshold cb rs v c h =
      recovers rs cb _ _ _ c refl refl refl (v.half_open_below c).0 h

  -- A failure while the breaker is half open sends it back to open, whatever was counted, and the
  -- next request is admitted exactly when the timeout has passed since that failure.
  pub half_open_failure_reopens :
      (cb : CircuitBreaker Error) (now later : ℕ) (err : Option Error)
      → cb.state ≡ circuit_half_open
      → cb.is_failure err ≡ true
      → let cb' = record_result now err cb in
        (cb'.state ≡ circuit_open) × ((allow_request later cb').1 ≡ elapsed now later cb.timeout)
  unfolding record_result allow_request
  half_open_failure_reopens cb now later err c j = ground arith

  -- A call is rejected exactly when the breaker is open and its timeout has not yet passed since
  -- the last recorded failure; a rejected call does not run `fn`, returns the breaker's error and
  -- leaves the breaker as it was. A call that is let through runs `fn`, returns its result, and
  -- records it when `fn` is done.
  pub call_outcome :
      (now later : ℕ) (result : Option Error) (cb : CircuitBreaker Error)
      → let rejected = is_open cb.state && not (elapsed cb.last_failure_time now cb.timeout) in
        let (cb', err, called) = call now result later cb in
        (called ≡ not rejected)
        × (err ≡ (if rejected then some breaker_open else fn_error result))
        × (cb' ≡ (if rejected then cb else record_result later result (allow_request now cb).0))
  unfolding call
  call_outcome now later result cb = ground arith
