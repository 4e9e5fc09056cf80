-- ===== src/Prelude/Int.antt =====
-- Signed integers for the source's `int` and `time.Duration` where their sign matters.
use Prim.Native.Nat.{ℕ, zero, suc, ◌+◌}
use mathlib.Core.Bool.{Bool, true, false}
use connect_plugin_go.Prelude.Tests.{leb}

-- `negsuc n` is -(n + 1).
pub data ℤ : Type 0 where
  pos : ℕ → ℤ
  negsuc : ℕ → ℤ

-- z <= 0
abbrev pub is_nonpositive : ℤ → Bool
is_nonpositive (pos zero) = true
is_nonpositive (pos (suc n)) = false
is_nonpositive (negsuc n) = true

-- z == 0
abbrev pub is_zero : ℤ → Bool
is_zero (pos zero) = true
is_zero (pos (suc n)) = false
is_zero (negsuc n) = false

-- n >= z, for a count n
abbrev pub reaches : ℕ → ℤ → Bool
reaches n (pos z) = leb z n
reaches n (negsuc z) = true

-- now - since >= d, for the instants `since` and `now` and a duration d
abbrev pub elapsed : ℕ → ℕ → ℤ → Bool
elapsed since now (pos d) = leb (since + d) now
elapsed since now (negsuc d) = leb since (now + suc d)

abbrev pub incr : ℤ → ℤ
incr (pos n) = pos (suc n)
incr (negsuc zero) = pos 0
incr (negsuc (suc n)) = negsuc n

abbrev pub decr : ℤ → ℤ
decr (pos zero) = negsuc 0
decr (pos (suc n)) = pos n
decr (negsuc n) = negsuc (suc n)
