-- ===== src/Base/Bits/Step.antt =====
-- The native bit operations stand for `bitwise`, a recursion on binary digits with fuel. Here the
-- fuel is dropped: one equation for the lowest digit of each.
use Prim.Native.Nat.{
  ℕ, zero, suc, ◌+◌, ◌-◌, ◌*◌, ◌/◌, ◌%◌, ◌≤◌, min, max, digits, bitwise, bit_and, bit_or, bit_xor,
  differ, ◌<◌, bit_and-bitwise, bit_or-bitwise, bit_xor-bitwise,
}
use mathlib.Core.Path.{◌≡◌, refl, ap, ◌∙◌}
use native.Mathlib.Omega.{arith}

-- `digits` with any fuel that is enough is `bitwise`.
module _ (z : ℕ → ℕ) (f : ℕ → ℕ → ℕ) where
  digits_enough :
      (bound fuel a b : ℕ) → fuel ≤ bound → a ≤ fuel → digits z f fuel a b ≡ bitwise z f a b
  digits_enough bound zero zero b p q = refl
  digits_enough bound (suc fuel) zero b p q = refl
  digits_enough bound zero (suc a) b p q = absurd (omega arith)
  digits_enough zero (suc fuel) (suc a) b p q = absurd (omega arith)
  digits_enough (suc bound) (suc fuel) (suc a) b p q = omega (
    arith,
    digits_enough bound fuel (suc a / 2) (b / 2) (omega arith) (omega arith),
    digits_enough bound a (suc a / 2) (b / 2) (omega arith) (omega arith),
  )

  -- One digit of `bitwise`, where an operand that ran out agrees with the operation on 0.
  bitwise_halves :
      (a b : ℕ)
      → ((y : ℕ) → z y ≡ z (y / 2) * 2 + f 0 (y % 2))
      → bitwise z f a b ≡ bitwise z f (a / 2) (b / 2) * 2 + f (a % 2) (b % 2)
  bitwise_halves zero b out = out b
  bitwise_halves (suc a) b out =
      omega (arith, digits_enough a a (suc a / 2) (b / 2) (omega arith) (omega arith))

pub bit_and-zero_left : (b : ℕ) → bit_and 0 b ≡ 0
bit_and-zero_left b = bit_and-bitwise 0 b

pub bit_and_step : (a b : ℕ) → bit_and a b ≡ bit_and (a / 2) (b / 2) * 2 + min (a % 2) (b % 2)
bit_and_step a b = simp bit_and-bitwise (bitwise_halves (λ y. 0) min a b (λ y. omega arith))

pub bit_or_step : (a b : ℕ) → bit_or a b ≡ bit_or (a / 2) (b / 2) * 2 + max (a % 2) (b % 2)
bit_or_step a b = simp bit_or-bitwise (bitwise_halves (λ y. y) max a b (λ y. omega arith))

differ_bits : (x y : ℕ) → x < 2 → y < 2 → differ x y ≡ max x y - min x y
differ_bits zero y h k = omega arith
differ_bits (suc zero) zero h k = omega arith
differ_bits (suc zero) (suc zero) h k = omega arith
differ_bits (suc zero) (suc (suc y)) h k = absurd (omega arith)
differ_bits (suc (suc x)) y h k = absurd (omega arith)

pub bit_xor_step :
    (a b : ℕ)
    → bit_xor a b ≡ bit_xor (a / 2) (b / 2) * 2 + (max (a % 2) (b % 2) - min (a % 2) (b % 2))
bit_xor_step a b = simp bit_xor-bitwise (
    bitwise_halves (λ y. y) differ a b
      (λ y. omega (arith, differ_bits 0 (y % 2) (omega arith) (omega arith)))
    ∙ ap (λ t. bitwise (λ y. y) differ (a / 2) (b / 2) * 2 + t)
        (differ_bits (a % 2) (b % 2) (omega arith) (omega arith)))
