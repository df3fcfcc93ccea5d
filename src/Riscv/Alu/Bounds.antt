-- ===== src/Riscv/Alu/Bounds.antt =====
-- The results of the arithmetic in nemu/src/isa/riscv32/inst.c are words.
use native.Mathlib.Nat.{div-le_self, mod-add-div}
use my_oscpu.Base.{
  ℕ, ◌*◌, ◌/◌, ◌%◌, ◌^◌, ◌≤◌, ◌<◌, arith, Bool, if◌then◌else◌, ltb, abs32, is_neg32, ok, err,
  undefined, ◌==◌,
}
use my_oscpu.Memory.Valid.{Ensures, Ensures-if, Ensures-of_eq}
use my_oscpu.Riscv.Alu.{
  word_of, sll32, srl32, sra32, with_sign, signs_differ, div_faults, sdiv32, srem32, udiv32, urem32,
  mulh32, mulhu32,
}

abbrev pub IsWord : ℕ → Type 0
IsWord n = n < 2 ^ 32

pub word_of-IsWord : (b : Bool) → IsWord (word_of b)
word_of-IsWord b = ground arith

pub sll32-IsWord : (a n : ℕ) → IsWord (sll32 a n)
unfolding sll32
sll32-IsWord a n = omega arith

pub srl32-IsWord : (a n : ℕ) → IsWord a → IsWord (srl32 a n)
unfolding srl32
srl32-IsWord a n h = omega (arith, div-le_self a (2 ^ n))

pub sra32-IsWord : (a n : ℕ) → IsWord a → IsWord (sra32 a n)
unfolding sra32
sra32-IsWord a n h = ground (arith, div-le_self a (2 ^ n))

abs32-IsWord : (a : ℕ) → IsWord a → IsWord (abs32 a)
abs32-IsWord a h = ground arith

with_sign-IsWord : (b : Bool) (n : ℕ) → IsWord n → IsWord (with_sign b n)
with_sign-IsWord b n h = ground arith

mod-le_self : (a b : ℕ) → a % b ≤ a
mod-le_self a b = omega (arith, mod-add-div a b)

pub sdiv32-IsWord : (a b : ℕ) → IsWord a → Ensures IsWord (sdiv32 a b)
unfolding sdiv32
sdiv32-IsWord a b h = Ensures-if IsWord (div_faults a b) _ _ tt (
    with_sign-IsWord (signs_differ a b) (abs32 a / abs32 b)
      (omega (arith, div-le_self (abs32 a) (abs32 b), abs32-IsWord a h)))

pub srem32-IsWord : (a b : ℕ) → IsWord a → Ensures IsWord (srem32 a b)
unfolding srem32
srem32-IsWord a b h = Ensures-if IsWord (div_faults a b) _ _ tt (
    with_sign-IsWord (is_neg32 a) (abs32 a % abs32 b)
      (omega (arith, mod-le_self (abs32 a) (abs32 b), abs32-IsWord a h)))

pub udiv32-IsWord : (a b : ℕ) → IsWord a → Ensures IsWord (udiv32 a b)
unfolding udiv32
udiv32-IsWord a b h = Ensures-if IsWord (b == 0) _ _ tt (omega (arith, div-le_self a b))

pub urem32-IsWord : (a b : ℕ) → IsWord a → Ensures IsWord (urem32 a b)
unfolding urem32
urem32-IsWord a b h = Ensures-if IsWord (b == 0) _ _ tt (omega (arith, mod-le_self a b))

pub mulh32-IsWord : (a b : ℕ) → IsWord (mulh32 a b)
unfolding mulh32
mulh32-IsWord a b = omega arith

pub mulhu32-IsWord : (a b : ℕ) → Ensures IsWord (mulhu32 a b)
unfolding mulhu32
mulhu32-IsWord a b =
    Ensures-of_eq IsWord (if ltb (a * b) (2 ^ 63) then ok (a * b / 2 ^ 32) else err undefined)
      (λ v e. ground arith)
