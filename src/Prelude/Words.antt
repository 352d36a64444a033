-- ===== src/Prelude/Words.antt =====
-- Machine-width arithmetic: `u8` with saturation, and `usize` counters that wrap at 2 ^ 64.
use Prim.Native.Nat.{min, ℕ, ◌%◌, ◌*◌, ◌+◌, ◌<◌, ◌^◌}
use mathlib.Core.Path.{◌≡◌}
use native.Mathlib.Omega.{arith}

abbrev pub u8_max : ℕ
u8_max = 255

-- `u8::saturating_add` and `u8::saturating_mul`
abbrev pub saturating_add : ℕ → ℕ → ℕ
saturating_add a b = min u8_max (a + b)

abbrev pub saturating_mul : ℕ → ℕ → ℕ
saturating_mul a b = min u8_max (a * b)

-- `n as u8`
abbrev pub as_u8 : ℕ → ℕ
as_u8 n = n % 256

-- `a += b` on a `usize` or `u64` field
unfoldable pub wrapping_add : ℕ → ℕ → ℕ
wrapping_add a b = (a + b) % 2 ^ 64

pub wrapping_add-mod : (a b : ℕ) → wrapping_add (a % 2 ^ 64) b ≡ (a + b) % 2 ^ 64
unfolding wrapping_add
wrapping_add-mod a b = omega arith

pub wrapping_add-eq : (a b : ℕ) → a + b < 2 ^ 64 → wrapping_add a b ≡ a + b
unfolding wrapping_add
wrapping_add-eq a b h = omega arith
