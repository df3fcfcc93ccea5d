-- ===== src/Riscv/Operand.antt =====
-- `decode_operand` of nemu/src/isa/riscv32/inst.c: register numbers, source values and the immediate.
use my_oscpu.Base.{ℕ, ◌*◌, ◌^◌, bit_or, u32, u64, Result, ok, ◌>>=◌}
use my_oscpu.Config.{Config}
use my_oscpu.Riscv.Alu.{bits, sext}
use my_oscpu.Riscv.Machine.{Machine, get_reg}
use my_oscpu.Riscv.Table.{OperandType, type_i, type_u, type_s, type_j, type_r, type_b, type_n}

pub record Operands : Type 0 where
  pub rd : ℕ
  pub src1 : ℕ
  pub src2 : ℕ
  pub imm : ℕ

-- `immI` … `immB`; the result is assigned to a `word_t`.
unfoldable pub imm_i : ℕ → ℕ
imm_i i = u32 (sext (bits i 31 20) 12)

unfoldable pub imm_u : ℕ → ℕ
imm_u i = u32 (u64 (sext (bits i 31 12) 20 * 2 ^ 12))

unfoldable pub imm_s : ℕ → ℕ
imm_s i = u32 (bit_or (u64 (sext (bits i 31 25) 7 * 2 ^ 5)) (bits i 11 7))

unfoldable pub imm_j : ℕ → ℕ
imm_j i = u32 (
    bit_or
      (bit_or (bit_or (u64 (sext (bits i 31 31) 1 * 2 ^ 20)) (bits i 19 12 * 2 ^ 12))
        (bits i 20 20 * 2 ^ 11))
      (bits i 30 21 * 2 ^ 1))

unfoldable pub imm_b : ℕ → ℕ
imm_b i = u32 (
    bit_or
      (bit_or (bit_or (u64 (sext (bits i 31 31) 1 * 2 ^ 12)) (bits i 7 7 * 2 ^ 11))
        (bits i 30 25 * 2 ^ 5))
      (bits i 11 8 * 2 ^ 1))

module _ {D : Type 0} (cfg : Config) (m : Machine D) (i : ℕ) where
  abbrev src1 : Result ℕ
  src1 = get_reg cfg (bits i 19 15) m

  abbrev src2 : Result ℕ
  src2 = get_reg cfg (bits i 24 20) m

  abbrev rd : ℕ
  rd = bits i 11 7

  abbrev operands : ℕ → ℕ → ℕ → Result Operands
  operands a b imm = ok (record { rd = rd; src1 = a; src2 = b; imm = imm })

  -- What a type does not assign keeps the 0 that `decode_exec` starts from.
  unfoldable pub decode_operand : OperandType → Result Operands
  decode_operand type_i = do a ← src1; operands a 0 (imm_i i)
  decode_operand type_u = operands 0 0 (imm_u i)
  decode_operand type_s = do a ← src1; b ← src2; operands a b (imm_s i)
  decode_operand type_j = operands 0 0 (imm_j i)
  decode_operand type_r = do a ← src1; b ← src2; operands a b 0
  decode_operand type_b = do a ← src1; b ← src2; operands a b (imm_b i)
  decode_operand type_n = operands 0 0 0
