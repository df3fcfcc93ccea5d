-- ===== src/Riscv/Exec/Step.antt =====
-- One step of the guest keeps registers, next address and memory within their widths, and leaves x0 zero
-- (`decode_exec` and `isa_exec_once` of nemu/src/isa/riscv32/inst.c).
use my_oscpu.Base.{
  List, take, subst, Bool-cases, inl, inr, ℕ, ◌-◌, ◌^◌, ◌≡◌, refl, arith, Bool, ltb, if◌then◌else◌,
  Option, none, some, Result, ok, ◌>>=◌, bit_and, add32, sub32, mul32, slt32, codes,
}
use my_oscpu.Base.Bits.{bit_and-lt, bit_or-lt, bit_xor-lt}
use my_oscpu.Config.{Config}
use my_oscpu.Memory.Valid.{Ensures, Ensures-bind, Ensures-of_eq}
use my_oscpu.Riscv.Alu.Bounds.{
  IsWord, word_of-IsWord, sll32-IsWord, srl32-IsWord, sra32-IsWord, mulh32-IsWord, mulhu32-IsWord,
  sdiv32-IsWord, udiv32-IsWord, srem32-IsWord, urem32-IsWord,
}
use my_oscpu.Riscv.Machine.{Machine, get_reg, with_cpu, isa_raise_intr, nr_gpr, end}
use my_oscpu.Riscv.Registers.{isa_reg_str2val, reg_value, same_text, skip_dollar, find_reg, regs}
use my_oscpu.Riscv.Table.{
  OperandType, Instr, lui, auipc, jal, jalr, beq, bne, blt, bge, bltu, bgeu, lb, lh, lw, lbu, lhu,
  sb, sh, sw, addi, slti, sltiu, xori, ori, andi, slli, srli, srai, add, sub, sll, slt, sltu, xor,
  srl, sra, or, and, mul, mulh, mulhu, div, divu, rem, remu, csrrw, csrrs, ecall, ebreak, mret, inv,
  rows, find_row, Row, type_i, type_u, type_s, type_j, type_r, type_b, type_n,
}
use my_oscpu.Riscv.Alu.{bits}
use my_oscpu.Riscv.Operand.{Operands, decode_operand, imm_i, imm_u, imm_s, imm_j, imm_b}
use my_oscpu.Riscv.Exec.{
  Decode, value_or_zero, reset_zero, exec_row, decode_exec, isa_exec_once, write_rd_of, branch,
  load_rd, do_ecall, do_ebreak, do_invalid, exec_instr, inst_fetch, invalid_inst, write_rd,
}
use my_oscpu.Riscv.Exec.Valid.{
  IsValid, IsNext, IsOperands, get_reg-IsWord, with_csr-IsValid, set_nemu_state-IsValid,
  inst_fetch-IsNext, invalid_inst-IsValid,
}
use my_oscpu.Riscv.Exec.Bodies.{
  write_rd-IsNext, write_rd_of-IsNext, branch-IsNext, load_rd-IsNext, store_src2-IsNext,
  jump-IsNext, access_csr-IsNext,
}

reg_value-IsWord :
    {D : Type 0} (m : Machine D) (s : List ℕ) (o : Option ℕ)
    → IsValid m
    → IsWord (value_or_zero (reg_value m.cpu s o))
unfolding reg_value
reg_value-IsWord m s (some i) v = v.words i
reg_value-IsWord m s none v = elim (Bool-cases (same_text s (codes "pc"))) [
  | inl here ↦ rw here v.pc
  | inr not_there ↦ rw not_there (omega arith)
]

isa_reg_str2val-IsWord :
    {D : Type 0} (cfg : Config) (m : Machine D) (text : List ℕ)
    → IsValid m
    → IsWord (value_or_zero (isa_reg_str2val cfg m.cpu text))
unfolding isa_reg_str2val
isa_reg_str2val-IsWord cfg m text v =
    let s = skip_dollar text in reg_value-IsWord m s (find_reg (take (nr_gpr cfg) regs) 0 s) v

module _ {D : Type 0} (cfg : Config) (s : Decode) (o : Operands) (m : Machine D) where
  module _ (v : IsValid m) (pc : IsWord s.pc) (snpc : IsWord s.snpc) where
    do_ecall-IsNext : Ensures IsNext (do_ecall cfg s o m)
    unfolding do_ecall isa_raise_intr
    do_ecall-IsNext = (
      v.csrs.mtvec,
      with_csr-IsValid cfg m _
          (record {
            mstatus = omega arith;
            mtvec = v.csrs.mtvec;
            mepc = pc;
            mcause = isa_reg_str2val-IsWord cfg m (codes (if cfg.rve then "a5" else "a7")) v;
          })
          v,
    )

    do_ebreak-IsNext : Ensures IsNext (do_ebreak cfg s o m)
    unfolding do_ebreak
    do_ebreak-IsNext =
        Ensures-bind IsWord _ (get_reg cfg 10 m) _ (get_reg-IsWord cfg 10 m v)
          λ a _. (snpc, set_nemu_state-IsValid cfg end s.pc a m v)

    do_invalid-IsNext : Ensures IsNext (do_invalid cfg s o m)
    unfolding do_invalid
    do_invalid-IsNext =
        Ensures-bind _ _ (invalid_inst cfg s.pc m) _ (invalid_inst-IsValid cfg s.pc m v)
          λ m' v'. (snpc, v')

    do_mret-IsNext :
        IsNext {D = D} (
          m.cpu.csr.mepc_,
          with_cpu m (record m.cpu { csr = record m.cpu.csr { mstatus_ = 0x80 } }),
        )
    do_mret-IsNext = (
      v.csrs.mepc,
      with_csr-IsValid cfg m _
          (record {
            mstatus = omega arith;
            mtvec = v.csrs.mtvec;
            mepc = v.csrs.mepc;
            mcause = v.csrs.mcause;
          })
          v,
    )

    module _ (w : IsOperands o) where
      open o use {src1, src2, imm}

      put : (x : ℕ) → IsWord x → Ensures IsNext (write_rd cfg s o m x)
      put = write_rd-IsNext cfg s o m v snpc

      put_of : (r : Result ℕ) → Ensures IsWord r → Ensures IsNext (write_rd_of cfg s o m r)
      put_of = write_rd_of-IsNext cfg s o m v snpc

      take_branch : (t : Bool) → Ensures IsNext (branch cfg s o m t)
      take_branch = branch-IsNext cfg s o m v snpc

      get_data :
          (len : ℕ) (f : ℕ → ℕ)
          → ((x : ℕ) → IsWord x → IsWord (f x))
          → Ensures IsNext (load_rd cfg s o m len f)
      get_data = load_rd-IsNext cfg s o m v snpc

      exec_instr-IsNext : (i : Instr) → Ensures IsNext (exec_instr cfg s o m i)
      unfolding exec_instr
      exec_instr-IsNext lui = put imm w.imm
      exec_instr-IsNext auipc = put (add32 s.pc imm) (omega arith)
      exec_instr-IsNext jal = jump-IsNext cfg s o m v snpc (add32 s.pc imm) none (omega arith)
      exec_instr-IsNext jalr =
          jump-IsNext cfg s o m v snpc (bit_and (add32 src1 imm) (2 ^ 32 - 2)) (some src1)
            (bit_and-lt 32 (add32 src1 imm) (2 ^ 32 - 2) (omega arith))
      exec_instr-IsNext beq = take_branch _
      exec_instr-IsNext bne = take_branch _
      exec_instr-IsNext blt = take_branch _
      exec_instr-IsNext bge = take_branch _
      exec_instr-IsNext bltu = take_branch _
      exec_instr-IsNext bgeu = take_branch _
      exec_instr-IsNext lb = get_data 1 _ (λ x h. omega arith)
      exec_instr-IsNext lh = get_data 2 _ (λ x h. omega arith)
      exec_instr-IsNext lw = get_data 4 _ (λ x h. h)
      exec_instr-IsNext lbu = get_data 1 _ (λ x h. h)
      exec_instr-IsNext lhu = get_data 2 _ (λ x h. h)
      exec_instr-IsNext sb = store_src2-IsNext cfg s o m v snpc 1
      exec_instr-IsNext sh = store_src2-IsNext cfg s o m v snpc 2
      exec_instr-IsNext sw = store_src2-IsNext cfg s o m v snpc 4
      exec_instr-IsNext addi = put (add32 src1 imm) (omega arith)
      exec_instr-IsNext slti = put _ (word_of-IsWord (slt32 src1 imm))
      exec_instr-IsNext sltiu = put _ (word_of-IsWord (ltb src1 imm))
      exec_instr-IsNext xori = put _ (bit_xor-lt 32 src1 imm w.src1 w.imm)
      exec_instr-IsNext ori = put _ (bit_or-lt 32 src1 imm w.src1 w.imm)
      exec_instr-IsNext andi = put _ (bit_and-lt 32 src1 imm w.src1)
      exec_instr-IsNext slli = put _ (sll32-IsWord src1 _)
      exec_instr-IsNext srli = put _ (srl32-IsWord src1 _ w.src1)
      exec_instr-IsNext srai = put _ (sra32-IsWord src1 _ w.src1)
      exec_instr-IsNext add = put (add32 src1 src2) (omega arith)
      exec_instr-IsNext sub = put (sub32 src1 src2) (omega arith)
      exec_instr-IsNext sll = put _ (sll32-IsWord src1 _)
      exec_instr-IsNext slt = put _ (word_of-IsWord (slt32 src1 src2))
      exec_instr-IsNext sltu = put _ (word_of-IsWord (ltb src1 src2))
      exec_instr-IsNext xor = put _ (bit_xor-lt 32 src1 src2 w.src1 w.src2)
      exec_instr-IsNext srl = put _ (srl32-IsWord src1 _ w.src1)
      exec_instr-IsNext sra = put _ (sra32-IsWord src1 _ w.src1)
      exec_instr-IsNext or = put _ (bit_or-lt 32 src1 src2 w.src1 w.src2)
      exec_instr-IsNext and = put _ (bit_and-lt 32 src1 src2 w.src1)
      exec_instr-IsNext mul = put (mul32 src1 src2) (omega arith)
      exec_instr-IsNext mulh = put _ (mulh32-IsWord src1 src2)
      exec_instr-IsNext mulhu = put_of _ (mulhu32-IsWord src1 src2)
      exec_instr-IsNext div = put_of _ (sdiv32-IsWord src1 src2 w.src1)
      exec_instr-IsNext divu = put_of _ (udiv32-IsWord src1 src2 w.src1)
      exec_instr-IsNext rem = put_of _ (srem32-IsWord src1 src2 w.src1)
      exec_instr-IsNext remu = put_of _ (urem32-IsWord src1 src2 w.src1)
      exec_instr-IsNext csrrw = access_csr-IsNext cfg s o m v snpc _ (λ x h. w.src1)
      exec_instr-IsNext csrrs =
          access_csr-IsNext cfg s o m v snpc _ (λ x h. bit_or-lt 32 x src1 h w.src1)
      exec_instr-IsNext ecall = do_ecall-IsNext
      exec_instr-IsNext ebreak = do_ebreak-IsNext
      exec_instr-IsNext mret = do_mret-IsNext
      exec_instr-IsNext inv = do_invalid-IsNext

module _ {D : Type 0} (cfg : Config) where
  two_sources :
      (m : Machine D) (i n : ℕ)
      → IsValid m
      → IsWord n
      → Ensures
          (λ (o : Operands). IsOperands o)
          (do
            a ← get_reg cfg (bits i 19 15) m
            b ← get_reg cfg (bits i 24 20) m
            ok (record { rd = bits i 11 7; src1 = a; src2 = b; imm = n }))
  two_sources m i n v h =
      Ensures-bind IsWord _ (get_reg cfg (bits i 19 15) m) _ (get_reg-IsWord cfg (bits i 19 15) m v)
        λ a p.
          Ensures-bind IsWord _ (get_reg cfg (bits i 24 20) m) _
            (get_reg-IsWord cfg (bits i 24 20) m v) λ b q. record { src1 = p; src2 = q; imm = h }

  decode_operand-IsOperands :
      (m : Machine D) (i : ℕ) (t : OperandType)
      → IsValid m
      → Ensures (λ (o : Operands). IsOperands o) (decode_operand cfg m i t)
  unfolding decode_operand imm_i imm_u imm_s imm_j imm_b
  decode_operand-IsOperands m i type_i v =
      Ensures-bind IsWord _ (get_reg cfg (bits i 19 15) m) _ (get_reg-IsWord cfg (bits i 19 15) m v)
        λ a p. record { src1 = p; src2 = omega arith; imm = omega arith }
  decode_operand-IsOperands m i type_u v = omega arith
  decode_operand-IsOperands m i type_s v = two_sources m i (imm_s i) v (omega arith)
  decode_operand-IsOperands m i type_j v = omega arith
  decode_operand-IsOperands m i type_r v = two_sources m i 0 v (omega arith)
  decode_operand-IsOperands m i type_b v = two_sources m i (imm_b i) v (omega arith)
  decode_operand-IsOperands m i type_n v = omega arith

  -- After `R(0) = 0`.
  IsDone : ℕ × Machine D → Type 0
  IsDone r = IsNext r × (r.1.cpu.gpr 0 ≡ 0)

  reset_zero-IsDone : (n : ℕ) (m : Machine D) → IsNext (n, m) → IsDone (n, reset_zero cfg m)
  unfolding IsDone
  reset_zero-IsDone n m h = (
    (
      h.0,
      record {
        words = λ j. ground (arith, h.1.words j);
        csrs = h.1.csrs;
        memory = h.1.memory;
        pc = h.1.pc;
      },
    ),
    refl,
  )

  exec_row-IsDone :
      (s : Decode) (m : Machine D) (found : Option Row)
      → IsValid m
      → IsWord s.pc
      → IsWord s.snpc
      → Ensures IsDone (exec_row cfg s m found)
  unfolding exec_row
  exec_row-IsDone s m none v p q = reset_zero-IsDone s.snpc m (q, v)
  exec_row-IsDone s m (some r) v p q =
      Ensures-bind _ _ (decode_operand cfg m s.inst r.type) _
        (decode_operand-IsOperands m s.inst r.type v)
        λ o w.
          Ensures-bind IsNext _ (exec_instr cfg s o m r.instr) _
            (exec_instr-IsNext cfg s o m v p q w r.instr) λ n h. reset_zero-IsDone n.0 n.1 h

  decode_exec-IsDone :
      (s : Decode) (m : Machine D)
      → IsValid m
      → IsWord s.pc
      → IsWord s.snpc
      → Ensures IsDone (decode_exec cfg s m)
  unfolding decode_exec
  decode_exec-IsDone s m v p q =
      Ensures-bind (λ (o : Option Row). Unit {0}) _ (find_row rows s.inst) _
        (Ensures-of_eq _ (find_row rows s.inst) (λ o e. tt)) λ o _. exec_row-IsDone s m o v p q

  isa_exec_once-IsDone :
      (pc : ℕ) (m : Machine D)
      → IsValid m
      → IsWord pc
      → Ensures (λ (r : Decode × ℕ × Machine D). IsDone (r.1, r.2)) (isa_exec_once cfg pc m)
  unfolding isa_exec_once
  isa_exec_once-IsDone pc m v w =
      Ensures-bind _ _ (inst_fetch cfg pc m) _ (inst_fetch-IsNext cfg pc m v) λ f p.
        Ensures-bind IsDone _ (decode_exec cfg (record { pc = pc; snpc = f.1; inst = f.0 }) f.2) _
          (decode_exec-IsDone (record { pc = pc; snpc = f.1; inst = f.0 }) f.2 p.2 w p.1) λ r d. d

  -- Whatever the word at `pc` is: if one step from a valid machine returns, it gives a next address of 32 bits and a
  -- valid machine, in which every register, CSR, memory and arena cell keeps its width and x0 is 0. Nothing is said
  -- of a step that fails: by a panic or a failing assertion, or in behaviour that C does not define (a load across
  -- the end of memory, a division by zero, an overflow of the product of mulhu).
  pub isa_exec_once-IsValid :
      (pc : ℕ) (m : Machine D) {s : Decode} {dnpc : ℕ} {m' : Machine D}
      → IsValid m
      → IsWord pc
      → isa_exec_once cfg pc m ≡ ok (s, dnpc, m')
      → IsWord dnpc × IsValid m' × (m'.cpu.gpr 0 ≡ 0)
  isa_exec_once-IsValid pc m v w e =
      let d =
        subst (Ensures (λ (r : Decode × ℕ × Machine D). IsDone (r.1, r.2))) e
          (isa_exec_once-IsDone pc m v w) in
      unfold IsDone in (d.0.0, d.0.1, d.1)
