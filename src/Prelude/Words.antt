-- ===== src/Prelude/Words.antt =====
-- Unsigned machine words as native numbers: wrap by `%`, bytes by division, least byte first.
use Prim.Native.Nat.{ℕ, ◌+◌, ◌-◌, ◌*◌, ◌/◌, ◌%◌, ◌^◌, ◌<◌}
use mathlib.Core.Path.{◌≡◌}
use mathlib.Core.List.{List, [], ◌∷◌}
use native.Mathlib.Omega.{arith}

abbrev pub u8 : ℕ → ℕ
u8 n = n % 2 ^ 8

abbrev pub u16 : ℕ → ℕ
u16 n = n % 2 ^ 16

abbrev pub u32 : ℕ → ℕ
u32 n = n % 2 ^ 32

-- `UINT32_MAX`
abbrev pub u32_max : ℕ
u32_max = 2 ^ 32 - 1

-- `uint32_t(now - then)`: the wrapping distance between two readings of `millis()`.
abbrev pub since : ℕ → ℕ → ℕ
since now start = u32 (u32 now + 2 ^ 32 - u32 start)

-- The distance from a reading to one `d` later is `d`, also where the counter wraps.
pub since-later : (t d : ℕ) → d < 2 ^ 32 → since (u32 (t + d)) t ≡ d
since-later t d h = omega arith

-- The four bytes of a word, as a little-endian machine stores it.
abbrev pub put32 : ℕ → List ℕ
put32 v = (v % 256) ∷ (v / 256 % 256) ∷ (v / 65536 % 256) ∷ (v / 16777216 % 256) ∷ []

abbrev pub put16 : ℕ → List ℕ
put16 v = (v % 256) ∷ (v / 256 % 256) ∷ []

-- A word from its four bytes.
abbrev pub word32 : ℕ → ℕ → ℕ → ℕ → ℕ
word32 a b c d = a + 256 * b + 65536 * c + 16777216 * d

pub word32_bytes :
    (v : ℕ)
    → v < 2 ^ 32
    → word32 (v % 256) (v / 256 % 256) (v / 65536 % 256) (v / 16777216 % 256) ≡ v
word32_bytes v h = omega arith
