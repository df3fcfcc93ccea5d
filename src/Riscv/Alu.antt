-- ===== src/Riscv/Alu.antt =====
-- The arithmetic of the bodies in nemu/src/isa/riscv32/inst.c on 32-bit patterns, and the macros `BITS` and
-- `SEXT` of nemu/include/macro.h.
pub mod Bounds
use my_oscpu.Base.{
  ℕ, ◌+◌, ◌-◌, ◌*◌, ◌/◌, ◌%◌, ◌^◌, Bool, true, false, ◌&&◌, ◌||◌, ◌==◌, ltb, leb, if◌then◌else◌,
  u32, u64, neg32, is_neg32, abs32, Result, ok, err, undefined,
}

-- `BITS(x, hi, lo)`: the shift and the mask of `hi - lo + 1` ones.
abbrev pub bits : ℕ → ℕ → ℕ → ℕ
bits x hi lo = x / 2 ^ lo % 2 ^ (hi - lo + 1)

-- `SEXT(x, len)`, as a uint64_t: the bit field of `len` bits takes x modulo 2 ^ len.
unfoldable pub sext : ℕ → ℕ → ℕ
sext x len = let y = x % 2 ^ len in if ltb y (2 ^ (len - 1)) then y else y + 2 ^ 64 - 2 ^ len

-- A comparison as a word.
abbrev pub word_of : Bool → ℕ
word_of b = if b then 1 else 0

unfoldable pub sll32 : ℕ → ℕ → ℕ
sll32 a n = u32 (a * 2 ^ n)

unfoldable pub srl32 : ℕ → ℕ → ℕ
srl32 a n = a / 2 ^ n

-- `(sword_t)a >> n`: on a negative number gcc shifts in ones, so it is the complement of the shifted
-- complement.
unfoldable pub sra32 : ℕ → ℕ → ℕ
sra32 a n = if is_neg32 a then 2 ^ 32 - 1 - (2 ^ 32 - 1 - a) / 2 ^ n else a / 2 ^ n

-- The pattern of a signed number from its sign and magnitude.
abbrev pub with_sign : Bool → ℕ → ℕ
with_sign neg n = if neg then neg32 (n % 2 ^ 32) else n

abbrev pub signs_differ : ℕ → ℕ → Bool
signs_differ a b = if is_neg32 a then leb b (2 ^ 31 - 1) else is_neg32 b

-- `(sword_t)a / (sword_t)b` is undefined for b = 0 and for -2^31 / -1.
abbrev pub div_faults : ℕ → ℕ → Bool
div_faults a b = b == 0 || (a == 2 ^ 31 && b == 2 ^ 32 - 1)

unfoldable pub sdiv32 : ℕ → ℕ → Result ℕ
sdiv32 a b =
    if div_faults a b then err undefined else ok (with_sign (signs_differ a b) (abs32 a / abs32 b))

unfoldable pub srem32 : ℕ → ℕ → Result ℕ
srem32 a b =
    if div_faults a b then err undefined else ok (with_sign (is_neg32 a) (abs32 a % abs32 b))

unfoldable pub udiv32 : ℕ → ℕ → Result ℕ
udiv32 a b = if b == 0 then err undefined else ok (a / b)

unfoldable pub urem32 : ℕ → ℕ → Result ℕ
urem32 a b = if b == 0 then err undefined else ok (a % b)

-- `((int64_t)(sword_t)a * (int64_t)(sword_t)b) >> 32`: the product fits int64_t; its pattern is shifted.
unfoldable pub mulh32 : ℕ → ℕ → ℕ
mulh32 a b =
    let p = abs32 a * abs32 b in
    u32 ((if signs_differ a b then (2 ^ 64 - p) % 2 ^ 64 else p) / 2 ^ 32)

-- `((int64_t)a * (int64_t)b) >> 32` of two unsigned words: a product from 2 ^ 63 on overflows int64_t.
unfoldable pub mulhu32 : ℕ → ℕ → Result ℕ
mulhu32 a b = let p = a * b in if ltb p (2 ^ 63) then ok (p / 2 ^ 32) else err undefined
