-- ===== src/Prelude/Integers.antt =====
-- Signed integers over the native numbers, under the library's names, and tests against a number.
use Prim.Native.Nat.{ℕ}
use mathlib.Core.Bool.{Bool, true, false}
use devices.Prelude.Tests.{leb, ◌==◌}

pub data ℤ : Type 0 where
  pos negsuc : ℕ → ℤ

abbrev pub is_negative : ℤ → Bool
is_negative (pos n) = false
is_negative (negsuc n) = true

abbrev pub is_number : ℤ → ℕ → Bool
is_number (pos n) m = n == m
is_number (negsuc n) m = false

abbrev pub at_least : ℕ → ℤ → Bool
at_least m (pos n) = leb m n
at_least m (negsuc n) = false
