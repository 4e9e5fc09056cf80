-- ===== src/CircuitBreaker/Goroutines.antt =====
-- Goroutines that share a circuit breaker: their operations interleave at the points where setState
-- gives up the lock for the time of the callback (circuitbreaker.go).
pub mod Callbacks
use connect_plugin_go.Prelude.{
  ℕ, zero, suc, ◌≡◌, refl, ap, sym, subst, false, Option, none, some, List, [], ◌∷◌, ◌++◌, arith,
}
use connect_plugin_go.Prelude.Int.{is_nonpositive}
use connect_plugin_go.Connect.{Code}
use connect_plugin_go.CircuitBreaker.{
  circuit_closed, circuit_open, circuit_half_open, CircuitBreaker, CircuitBreakerConfig,
  new_circuit_breaker, allow_request, record_result, AfterChange, keep_counters, reset_successes,
  reset_counters, Change, resume, notify, begin, step, Event, ask, report,
}
use connect_plugin_go.CircuitBreaker.Invariant.{
  Below, IsValid, positive_above, step-IsValid, new_circuit_breaker-IsValid,
}

-- The breaker, the goroutines that are about to call the callback, and those that it has returned to.
pub record Shared (Error : Type 0) : Type 0 where
  pub breaker : CircuitBreaker Error
  pub leaving : List Change
  pub returning : List AfterChange

-- What the scheduler lets happen next: a goroutine starts an operation, one of those that gave up the
-- lock makes its call of the callback, or one takes the lock again and ends its operation.
pub data Turn (Error : Type 0) : Type 0 where
  starts : Event Error → Turn Error
  calls_back : ℕ → Turn Error
  resumes : ℕ → Turn Error

remove_at : {A : Type 0} → ℕ → List A → Option (A × List A)
remove_at n [] = none
remove_at zero (x ∷ xs) = some (x, xs)
remove_at (suc n) (x ∷ xs) =
    let rest = remove_at n xs in elim rest [ none ↦ none | some (y, ys) ↦ some (y, x ∷ ys) ]

module _ {Error : Type 0} where
  begun : CircuitBreaker Error × Option Change → Shared Error → Shared Error
  begun (cb, none) s = record s { breaker = cb }
  begun (cb, some c) s = record s { breaker = cb; leaving = s.leaving ++ c ∷ [] }

  called_back : Option (Change × List Change) → Shared Error → Shared Error
  called_back none s = s
  called_back (some (c, rest)) s = record s {
    breaker = notify c s.breaker;
    leaving = rest;
    returning = s.returning ++ c.after ∷ [];
  }

  resumed : Option (AfterChange × List AfterChange) → Shared Error → Shared Error
  resumed none s = s
  resumed (some (after, rest)) s = record s { breaker = resume after s.breaker; returning = rest }

  unfoldable pub turn : Shared Error → Turn Error → Shared Error
  unfolding begun called_back resumed remove_at
  turn s (starts e) = begun (begin s.breaker e) s
  turn s (calls_back n) = called_back (remove_at n s.leaving) s
  turn s (resumes n) = resumed (remove_at n s.returning) s

  unfoldable pub turns : Shared Error → List (Turn Error) → Shared Error
  turns s [] = s
  turns s (t ∷ ts) = turns (turn s t) ts

  abbrev pub share : CircuitBreaker Error → Shared Error
  share cb = record { breaker = cb; leaving = []; returning = [] }

  -- What every goroutine that takes the lock finds.
  pub record IsSound (cb : CircuitBreaker Error) : Type 0 where
    pub threshold_positive : is_nonpositive cb.failure_threshold ≡ false
    pub successes_positive : is_nonpositive cb.success_threshold ≡ false
    pub closed_below :
        cb.state ≡ circuit_closed → Below cb.consecutive_failures cb.failure_threshold
    pub half_open_below :
        cb.state ≡ circuit_half_open → Below cb.consecutive_successes cb.success_threshold
    pub open_reset : cb.state ≡ circuit_open → cb.consecutive_successes ≡ 0

  begin-IsSound :
      (cb : CircuitBreaker Error) (e : Event Error) → IsSound cb → IsSound (begin cb e).0
  unfolding begin
  begin-IsSound cb (ask now) v = ground (arith, positive_above cb.success_threshold)
  begin-IsSound cb (report now err) v = ground (arith, positive_above cb.success_threshold)

  resume-IsSound :
      (after : AfterChange) (cb : CircuitBreaker Error) → IsSound cb → IsSound (resume after cb)
  resume-IsSound keep_counters cb v = v
  resume-IsSound reset_successes cb v = ground (arith, positive_above cb.success_threshold)
  resume-IsSound reset_counters cb v =
      ground (arith, positive_above cb.success_threshold, positive_above cb.failure_threshold)

  begun-IsSound :
      (b : CircuitBreaker Error × Option Change) (s : Shared Error)
      → IsSound b.0
      → IsSound (begun b s).breaker
  unfolding begun
  begun-IsSound (cb, none) s v = v
  begun-IsSound (cb, some c) s v = v

  called_back-IsSound :
      (next : Option (Change × List Change)) (s : Shared Error)
      → IsSound s.breaker
      → IsSound (called_back next s).breaker
  unfolding called_back
  called_back-IsSound none s v = v
  called_back-IsSound (some (c, rest)) s v = ground arith

  resumed-IsSound :
      (next : Option (AfterChange × List AfterChange)) (s : Shared Error)
      → IsSound s.breaker
      → IsSound (resumed next s).breaker
  unfolding resumed
  resumed-IsSound none s v = v
  resumed-IsSound (some (after, rest)) s v = resume-IsSound after s.breaker v

  turns-IsSound :
      (s : Shared Error) (ts : List (Turn Error)) → IsSound s.breaker → IsSound (turns s ts).breaker
  unfolding turns turn
  turns-IsSound s [] v = v
  turns-IsSound s (starts e ∷ ts) v =
      turns-IsSound (turn s (starts e)) ts (begun-IsSound _ s (begin-IsSound s.breaker e v))
  turns-IsSound s (calls_back n ∷ ts) v =
      turns-IsSound (turn s (calls_back n)) ts (called_back-IsSound _ s v)
  turns-IsSound s (resumes n ∷ ts) v = turns-IsSound (turn s (resumes n)) ts (resumed-IsSound _ s v)

  new_circuit_breaker-IsSound :
      (code_of : Error → Code) (config : CircuitBreakerConfig Error)
      → IsSound (new_circuit_breaker code_of config)
  unfolding new_circuit_breaker
  new_circuit_breaker-IsSound code_of config = ground arith

  -- However goroutines share a new breaker, their operations interleaved at each point where setState
  -- gives up the lock for the callback, whoever takes the lock finds: both thresholds are positive;
  -- while the breaker is closed, fewer failures counted than the failure threshold; while it is half
  -- open, fewer successes than the success threshold; while it is open, no success.
  pub turns_new-IsSound :
      (code_of : Error → Code) (config : CircuitBreakerConfig Error) (ts : List (Turn Error))
      → IsSound (turns (share (new_circuit_breaker code_of config)) ts).breaker
  turns_new-IsSound code_of config ts =
      turns-IsSound _ ts (new_circuit_breaker-IsSound code_of config)

  -- The shared breaker without a callback: no goroutine is ever halfway through.
  record IsQuiet (s : Shared Error) : Type 0 where
    silent : s.breaker.on_state_change ≡ false
    none_leaving : s.leaving ≡ []
    none_returning : s.returning ≡ []
    valid : IsValid s.breaker

  -- Without a callback an operation goes on to its end.
  begin_silent :
      (cb : CircuitBreaker Error) (e : Event Error)
      → cb.on_state_change ≡ false
      → begin cb e ≡ (step cb e, none)
  unfolding begin step allow_request record_result
  begin_silent cb (ask now) h = ground arith
  begin_silent cb (report now err) h = ground arith

  step_silent :
      (cb : CircuitBreaker Error) (e : Event Error)
      → (step cb e).on_state_change ≡ cb.on_state_change
  unfolding step allow_request record_result
  step_silent cb (ask now) = ground arith
  step_silent cb (report now err) = ground arith

  begun-IsQuiet : (s : Shared Error) (e : Event Error) → IsQuiet s → IsQuiet (turn s (starts e))
  unfolding turn begun begin
  begun-IsQuiet s e q =
      let v = step-IsValid s.breaker e q.valid in
      rw (begun, begin_silent s.breaker e q.silent) (ground arith)

  none_calls : (s : Shared Error) (n : ℕ) → s.leaving ≡ [] → turn s (calls_back n) ≡ s
  unfolding turn called_back remove_at
  none_calls s n h = ap (λ l. called_back (remove_at n l) s) h

  none_resumes : (s : Shared Error) (n : ℕ) → s.returning ≡ [] → turn s (resumes n) ≡ s
  unfolding turn resumed remove_at
  none_resumes s n h = ap (λ l. resumed (remove_at n l) s) h

  turn-IsQuiet : (s : Shared Error) (t : Turn Error) → IsQuiet s → IsQuiet (turn s t)
  turn-IsQuiet s (starts e) q = begun-IsQuiet s e q
  turn-IsQuiet s (calls_back n) q = subst IsQuiet (sym (none_calls s n q.none_leaving)) q
  turn-IsQuiet s (resumes n) q = subst IsQuiet (sym (none_resumes s n q.none_returning)) q

  turns-IsQuiet : (s : Shared Error) (ts : List (Turn Error)) → IsQuiet s → IsQuiet (turns s ts)
  unfolding turns
  turns-IsQuiet s [] q = q
  turns-IsQuiet s (t ∷ ts) q = turns-IsQuiet (turn s t) ts (turn-IsQuiet s t q)

  -- However goroutines share a new breaker without a callback, no goroutine is ever halfway through an
  -- operation when another takes the lock, and it finds: both thresholds are positive; while the
  -- breaker is closed, fewer failures counted than the failure threshold; while it is half open, fewer
  -- successes than the success threshold, and no failure; while it is open, at least one failure.
  pub turns_new-IsValid :
      (code_of : Error → Code) (config : CircuitBreakerConfig Error) (ts : List (Turn Error))
      → config.on_state_change ≡ false
      → let s = turns (share (new_circuit_breaker code_of config)) ts in
        (s.leaving ≡ []) × (s.returning ≡ []) × IsValid s.breaker
  unfolding new_circuit_breaker
  turns_new-IsValid code_of config ts silent =
      let q = turns-IsQuiet (share (new_circuit_breaker code_of config)) ts (record {
        silent = silent;
        none_leaving = refl;
        none_returning = refl;
        valid = new_circuit_breaker-IsValid code_of config;
      }) in
      (q.none_leaving, q.none_returning, q.valid)
