-- ===== src/Riscv/Registers.antt =====
-- Registers by name: `regs` and `isa_reg_str2val` of nemu/src/isa/riscv32/reg.c.
use Prim.Native.String.{String}
use my_oscpu.Base.{
  ℕ, ◌+◌, Bool, true, false, ◌&&◌, ◌==◌, if◌then◌else◌, List, [], ◌∷◌, Option, none, some, take,
  codes,
}
use my_oscpu.Config.{Config}
use my_oscpu.Riscv.Machine.{Cpu, nr_gpr}

abbrev pub regs : List String
regs =
    "$0" ∷ "ra" ∷ "sp" ∷ "gp" ∷ "tp" ∷ "t0" ∷ "t1" ∷ "t2" ∷ "s0" ∷ "s1" ∷ "a0" ∷ "a1" ∷ "a2" ∷ "a3"
    ∷ "a4" ∷ "a5" ∷ "a6" ∷ "a7" ∷ "s2" ∷ "s3" ∷ "s4" ∷ "s5" ∷ "s6" ∷ "s7" ∷ "s8" ∷ "s9" ∷ "s10"
    ∷ "s11" ∷ "t3" ∷ "t4" ∷ "t5" ∷ "t6" ∷ []

-- `strcmp(s, t) == 0`, on the characters before the terminator.
abbrev pub same_text : List ℕ → List ℕ → Bool
same_text [] [] = true
same_text [] (d ∷ ds) = false
same_text (c ∷ cs) [] = false
same_text (c ∷ cs) (d ∷ ds) = c == d && same_text cs ds

-- The loop over the register names from index `i` on.
unfoldable pub find_reg : List String → ℕ → List ℕ → Option ℕ
find_reg [] i s = none
find_reg (r ∷ rs) i s = if same_text s (codes r) then some i else find_reg rs (i + 1) s

-- `if (s[0] == '$') s++`.
abbrev pub skip_dollar : List ℕ → List ℕ
skip_dollar [] = []
skip_dollar (c ∷ s) = if c == b'$' then s else c ∷ s

-- What is returned when the loop has found an index, or none.
unfoldable pub reg_value : Cpu → List ℕ → Option ℕ → Option ℕ
reg_value cpu s (some i) = some (cpu.gpr i)
reg_value cpu s none = if same_text s (codes "pc") then some cpu.pc else none

-- The value, or `none` where `*success` is false (the value returned is then 0).
unfoldable pub isa_reg_str2val : Config → Cpu → List ℕ → Option ℕ
unfolding find_reg reg_value
isa_reg_str2val cfg cpu text =
    let s = skip_dollar text in reg_value cpu s (find_reg (take (nr_gpr cfg) regs) 0 s)
