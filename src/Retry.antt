-- ===== src/Retry.antt =====
-- retry.go: the retry interceptor, as the loop over the attempts. What happens outside is given by
-- the surroundings of a call: whether the context is done before an attempt, what the attempt
-- returns, and whether the context is done before the wait behind it is over.
pub mod Attempts
use connect_plugin_go.Prelude.{
  ℕ, zero, suc, ◌-◌, Bool, true, false, not, Option, none, some, if◌then◌else◌, nat_eq,
}
use connect_plugin_go.Prelude.Int.{ℤ, pos, negsuc, is_nonpositive}
use connect_plugin_go.Connect.{
  Code, canceled, invalid_argument, not_found, already_exists, permission_denied, unauthenticated,
  failed_precondition, aborted, out_of_range, unimplemented, data_loss, unavailable,
  resource_exhausted, internal, unknown, deadline_exceeded,
}

-- The fields of the policy that the loop reads; the waits' lengths are left out, since they are
-- computed in floating point.
pub record RetryPolicy (Error : Type 0) : Type 0 where
  pub max_attempts : ℤ
  pub is_retryable : Option (Option Error → Bool)

is_retryable_code : Code → Bool
is_retryable_code unavailable = true
is_retryable_code resource_exhausted = true
is_retryable_code internal = true
is_retryable_code unknown = true
is_retryable_code deadline_exceeded = true
is_retryable_code canceled = false
is_retryable_code invalid_argument = false
is_retryable_code not_found = false
is_retryable_code already_exists = false
is_retryable_code permission_denied = false
is_retryable_code unauthenticated = false
is_retryable_code failed_precondition = false
is_retryable_code aborted = false
is_retryable_code out_of_range = false
is_retryable_code unimplemented = false
is_retryable_code data_loss = false

unfoldable pub default_is_retryable : {Error : Type 0} → (Error → Code) → Option Error → Bool
unfolding is_retryable_code
default_is_retryable code_of none = false
default_is_retryable code_of (some e) = is_retryable_code (code_of e)

pub data Response (A Error : Type 0) : Type 0 where
  ok : A → Response A Error
  err : Error → Response A Error

-- Attempts are numbered from 1. `context_error n` is `ctx.Err()` before attempt n, `next n` the
-- result of attempt n, and `done_in_wait n` tells that `ctx.Done()` is received in the wait behind
-- attempt n.
pub record Surroundings (A Error : Type 0) : Type 0 where
  pub context_error : ℕ → Option Error
  pub next : ℕ → Response A Error
  pub done_in_wait : ℕ → Bool

-- What the interceptor returns, with the number of calls of `next` that it has made. The loop
-- cannot end by its test, `attempt <= MaxAttempts`, with an attempt left to make: `exhausted` is
-- the return behind the loop, of the last error or nil.
pub data Outcome (A Error : Type 0) : Type 0 where
  response : A → ℕ → Outcome A Error
  failure : Error → ℕ → Outcome A Error
  exhausted : Option Error → ℕ → Outcome A Error

-- int(z) where the loop counts up to it
abbrev count_of : ℤ → ℕ
count_of (pos n) = n
count_of (negsuc n) = 0

abbrev pub attempts_of : {Error : Type 0} → RetryPolicy Error → ℕ
attempts_of policy = if is_nonpositive policy.max_attempts then 3 else count_of policy.max_attempts

abbrev or_default : {F : Type 0} → Option F → F → F
or_default none d = d
or_default (some f) d = f

module _ {A Error : Type 0} (is_retryable : Option Error → Bool) (s : Surroundings A Error) where
  abbrev or_last : Error → Option Error → Error
  or_last now none = now
  or_last now (some last) = last

  -- The loop, by recursion on the attempts left; `attempt` is the one to make next, `last` is
  -- `lastErr`.
  attempts : ℕ → ℕ → ℕ → Option Error → Outcome A Error
  attempts max zero attempt last = exhausted last (attempt - 1)
  attempts max (suc left) attempt last = elim (s.context_error attempt) [
    | some e ↦ failure (or_last e last) (attempt - 1)
    | none ↦ elim (s.next attempt) [
      | ok a ↦ response a attempt
      | err e ↦
          let again = attempts max left (suc attempt) (some e) in
          if not (is_retryable (some e))
          then failure e attempt
          else if nat_eq attempt max
          then failure e attempt
          else if s.done_in_wait attempt
          then failure e attempt
          else again
    ]
  ]

abbrev pub judge_of : {Error : Type 0} → (Error → Code) → RetryPolicy Error → Option Error → Bool
judge_of code_of policy = or_default policy.is_retryable (default_is_retryable code_of)

-- RetryInterceptor
unfoldable pub retry :
    {A Error : Type 0} → (Error → Code) → RetryPolicy Error → Surroundings A Error → Outcome A Error
unfolding attempts
retry code_of policy s =
    let max = attempts_of policy in attempts (judge_of code_of policy) s max max 1 none
