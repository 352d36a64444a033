-- ===== src/Prelude/Bits.antt =====
-- Bitwise or and exclusive or at zero, as the constant-time comparisons use them.
use Prim.Native.Nat.{
  bit_or, bit_or-bitwise, bit_xor, bit_xor-bitwise, differ, digits, max, suc, zero, ℕ, ◌%◌, ◌/◌,
  ◌≤◌,
}
use mathlib.Core.Logic.{◌↔◌}
use mathlib.Core.Path.{◌≡◌}
use native.Mathlib.Omega.{arith}

differ_zero_iff : (x y : ℕ) → (differ x y ≡ 0) ↔ (x ≡ y)
differ_zero_iff zero y = ground arith
differ_zero_iff (suc x) zero = ground arith
differ_zero_iff (suc x) (suc y) = ground (arith, differ_zero_iff x y)

xor_digits_zero_iff : (n a b : ℕ) → a ≤ n → (digits (λ c. c) differ n a b ≡ 0) ↔ (a ≡ b)
xor_digits_zero_iff zero zero b h = ground arith
xor_digits_zero_iff zero (suc a) b h = absurd (omega arith)
xor_digits_zero_iff (suc n) zero b h = ground arith
xor_digits_zero_iff (suc n) (suc a) b h =
    let low = differ_zero_iff (suc a % 2) (b % 2) in
    let high = xor_digits_zero_iff n (suc a / 2) (b / 2) (omega arith) in ground (arith, low, high)

or_digits_zero_iff : (n a b : ℕ) → a ≤ n → (digits (λ c. c) max n a b ≡ 0) ↔ (a ≡ 0) × (b ≡ 0)
or_digits_zero_iff zero zero b h = ground arith
or_digits_zero_iff zero (suc a) b h = absurd (omega arith)
or_digits_zero_iff (suc n) zero b h = ground arith
or_digits_zero_iff (suc n) (suc a) b h =
    let high = or_digits_zero_iff n (suc a / 2) (b / 2) (omega arith) in ground (arith, high)

pub bit_xor_zero_iff : (a b : ℕ) → (bit_xor a b ≡ 0) ↔ (a ≡ b)
bit_xor_zero_iff a b = ground (arith, bit_xor-bitwise a b, xor_digits_zero_iff a a b (omega arith))

pub bit_or_zero_iff : (a b : ℕ) → (bit_or a b ≡ 0) ↔ (a ≡ 0) × (b ≡ 0)
bit_or_zero_iff a b = ground (arith, bit_or-bitwise a b, or_digits_zero_iff a a b (omega arith))
