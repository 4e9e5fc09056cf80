-- ===== src/CircuitBreaker/Goroutines/Callbacks.antt =====
-- The calls of OnStateChange that goroutines make (circuitbreaker.go).
use mathlib.Core.List.{append_assoc}
use connect_plugin_go.Prelude.{
  ◌≡◌, refl, ap, sym, ◌∙◌, subst, true, Option, none, some, List, [], ◌∷◌, ◌++◌, arith,
}
use connect_plugin_go.Connect.{Code}
use connect_plugin_go.CircuitBreaker.{
  CircuitState, circuit_closed, circuit_open, circuit_half_open, CircuitBreaker,
  CircuitBreakerConfig, new_circuit_breaker, AfterChange, keep_counters, reset_successes,
  reset_counters, Change, resume, begin, Event, ask, report,
}
use connect_plugin_go.CircuitBreaker.Goroutines.{
  Shared, Turn, starts, calls_back, resumes, turn, turns, share, begun, called_back, resumed,
  remove_at,
}

-- The transitions of the state diagram in the comments on CircuitState.
pub data Edge : CircuitState → CircuitState → Type 0 where
  trip : Edge circuit_closed circuit_open
  probe : Edge circuit_open circuit_half_open
  reopen : Edge circuit_half_open circuit_open
  recover : Edge circuit_half_open circuit_closed

-- A walk along the edges from one state to another, as the callback sees it.
pub data Walk (s : CircuitState) : List (CircuitState × CircuitState) → CircuitState → Type 0 where
  start : Walk s [] s
  go :
      {l : List (CircuitState × CircuitState)} {t u : CircuitState}
      → Walk s l t
      → Edge t u
      → Walk s (l ++ (t, u) ∷ []) u

-- The goroutines that give up the lock call the callback in the order in which they do.
abbrev pub InOrder : {Error : Type 0} → List (Turn Error) → Type 0
InOrder [] = Unit
InOrder (calls_back n ∷ ts) = (n ≡ 0) × InOrder ts
InOrder (_ ∷ ts) = InOrder ts

abbrev pub pairs : List Change → List (CircuitState × CircuitState)
pairs [] = []
pairs (c ∷ cs) = (c.from, c.to) ∷ pairs cs

pairs-append :
    (cs : List Change) (c : Change) → pairs (cs ++ c ∷ []) ≡ pairs cs ++ (c.from, c.to) ∷ []
pairs-append [] c = refl
pairs-append (d ∷ cs) c = ap (◌∷◌ (d.from, d.to)) (pairs-append cs c)

module _ {Error : Type 0} where
  -- What an operation does to the state up to where it gives up the lock.
  data Begun (cb : CircuitBreaker Error) : CircuitBreaker Error × Option Change → Type 0 where
    stays :
        {cb' : CircuitBreaker Error}
        → cb'.state ≡ cb.state
        → cb'.notified ≡ cb.notified
        → cb'.on_state_change ≡ cb.on_state_change
        → Begun cb (cb', none)
    changes :
        {cb' : CircuitBreaker Error} {c : Change}
        → Edge cb.state cb'.state
        → c.from ≡ cb.state
        → c.to ≡ cb'.state
        → cb'.notified ≡ cb.notified
        → cb'.on_state_change ≡ cb.on_state_change
        → Begun cb (cb', some c)

  begin-Begun :
      (cb : CircuitBreaker Error) (e : Event Error)
      → cb.on_state_change ≡ true
      → Begun cb (begin cb e)
  unfolding begin
  begin-Begun cb (ask now) h = grind (arith, stays, changes, trip, probe, reopen, recover)
  begin-Begun cb (report now err) h = grind (arith, stays, changes, trip, probe, reopen, recover)

  -- The calls made and those still to be made are a walk to the present state.
  record IsWatched (s : Shared Error) : Type 0 where
    watched : s.breaker.on_state_change ≡ true
    walk : Walk circuit_closed (s.breaker.notified ++ pairs s.leaving) s.breaker.state

  begun-IsWatched :
      (s : Shared Error) (b : CircuitBreaker Error × Option Change)
      → Begun s.breaker b
      → IsWatched s
      → IsWatched (begun b s)
  unfolding begun
  begun-IsWatched s (cb', none) (stays same unheard on) w = record {
    watched = on ∙ w.watched;
    walk = rw (same, unheard) w.walk;
  }
  begun-IsWatched s (cb', some c) (changes edge from to unheard on) w = record {
    watched = on ∙ w.watched;
    walk =
        rw (unheard, pairs-append s.leaving c, from, to)
          (subst (λ l. Walk circuit_closed l cb'.state)
            (append_assoc s.breaker.notified (pairs s.leaving) _) (go w.walk edge));
  }

  first_call :
      (s : Shared Error) (l : List Change)
      → s.leaving ≡ l
      → IsWatched s
      → IsWatched (called_back (remove_at 0 l) s)
  unfolding called_back remove_at
  first_call s [] e w = w
  first_call s (c ∷ rest) e w = record {
    watched = w.watched;
    walk =
        subst (λ l. Walk circuit_closed l s.breaker.state)
          (ap (λ l. s.breaker.notified ++ pairs l) e
            ∙ sym (append_assoc s.breaker.notified ((c.from, c.to) ∷ []) (pairs rest)))
          w.walk;
  }

  resume-IsWatched :
      (after : AfterChange) (rest : List AfterChange) (s : Shared Error)
      → IsWatched s
      → IsWatched (record s { breaker = resume after s.breaker; returning = rest })
  resume-IsWatched keep_counters rest s w = record { watched = w.watched; walk = w.walk }
  resume-IsWatched reset_successes rest s w = record { watched = w.watched; walk = w.walk }
  resume-IsWatched reset_counters rest s w = record { watched = w.watched; walk = w.walk }

  resumed-IsWatched :
      (next : Option (AfterChange × List AfterChange)) (s : Shared Error)
      → IsWatched s
      → IsWatched (resumed next s)
  unfolding resumed
  resumed-IsWatched none s w = w
  resumed-IsWatched (some (after, rest)) s w = resume-IsWatched after rest s w

  turns-IsWatched :
      (s : Shared Error) (ts : List (Turn Error))
      → InOrder ts
      → IsWatched s
      → IsWatched (turns s ts)
  unfolding turns turn
  turns-IsWatched s [] o w = w
  turns-IsWatched s (starts e ∷ ts) o w =
      turns-IsWatched (turn s (starts e)) ts o
        (begun-IsWatched s _ (begin-Begun s.breaker e w.watched) w)
  turns-IsWatched s (calls_back n ∷ ts) o w = turns-IsWatched (turn s (calls_back n)) ts o.1 (
      subst (λ k. IsWatched (called_back (remove_at k s.leaving) s)) (sym o.0)
        (first_call s s.leaving refl w))
  turns-IsWatched s (resumes n ∷ ts) o w =
      turns-IsWatched (turn s (resumes n)) ts o (resumed-IsWatched _ s w)

  -- However goroutines share a new breaker with a callback, as long as those that give up the lock call
  -- the callback in the order in which they do: the calls made, followed by those that are still to be
  -- made, form a walk through the state diagram. It starts at closed, each call's `from` is the `to`
  -- of the call before, each pair is an edge of the diagram, and the last `to` is the present state.
  pub turns_new-Walk :
      (code_of : Error → Code) (config : CircuitBreakerConfig Error) (ts : List (Turn Error))
      → config.on_state_change ≡ true
      → InOrder ts
      → let s = turns (share (new_circuit_breaker code_of config)) ts in
        Walk circuit_closed (s.breaker.notified ++ pairs s.leaving) s.breaker.state
  unfolding new_circuit_breaker
  turns_new-Walk code_of config ts observed order =
      (turns-IsWatched (share (new_circuit_breaker code_of config)) ts order
        (record { watched = observed; walk = start })).walk
