-- ===== src/Base/Int.antt =====
-- Signed integers over the native numbers, under the library's names, and their w-bit patterns.
use Prim.Native.Nat.{ℕ, ◌-◌, ◌*◌, ◌%◌, ◌<◌}
use mathlib.Core.Path.{◌≡◌}
use native.Mathlib.Nat.{mod-eq_of_lt}
use native.Mathlib.Omega.{arith}
use cor_reactor.Base.Tests.{ltb, if◌then◌else◌}

-- `negsuc n` is -(n + 1).
pub data ℤ : Type 0 where
  pos : ℕ → ℤ
  negsuc : ℕ → ℤ

-- The pattern of an integer in a word of `size` values (2 ^ w).
abbrev pub to_word : ℕ → ℤ → ℕ
to_word size (pos n) = n % size
to_word size (negsuc n) = size - 1 - n % size

-- The integer of a pattern: the upper half of the words is negative.
abbrev pub of_word : ℕ → ℕ → ℤ
of_word half u = if ltb u half then pos u else negsuc (2 * half - 1 - u)

-- The values of a signed word of 2 * half values.
abbrev pub IsSigned : ℕ → ℤ → Type 0
IsSigned half (pos n) = n < half
IsSigned half (negsuc n) = n < half

pub of_word-to_word : (half : ℕ) (z : ℤ) → IsSigned half z → of_word half (to_word (2 * half) z) ≡ z
of_word-to_word half (pos n) h = ground (arith, mod-eq_of_lt {n = n} {m = 2 * half} (omega arith))
of_word-to_word half (negsuc n) h =
    ground (arith, mod-eq_of_lt {n = n} {m = 2 * half} (omega arith))

pub to_word-lt : (half : ℕ) (z : ℤ) → IsSigned half z → to_word (2 * half) z < 2 * half
to_word-lt half (pos n) h = ground (arith, mod-eq_of_lt {n = n} {m = 2 * half} (omega arith))
to_word-lt half (negsuc n) h = ground (arith, mod-eq_of_lt {n = n} {m = 2 * half} (omega arith))
