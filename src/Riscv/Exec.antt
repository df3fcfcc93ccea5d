-- ===== src/Riscv/Exec.antt =====
-- Execution of one instruction: `decode_exec` and `isa_exec_once` of nemu/src/isa/riscv32/inst.c, with
-- `inst_fetch` of nemu/include/cpu/ifetch.h and `invalid_inst` of nemu/src/engine/interpreter/hostcall.c.
pub mod Valid
pub mod Bodies
pub mod Step
use my_oscpu.Base.{
  ℕ, ◌+◌, ◌-◌, ◌*◌, ◌%◌, ◌^◌, Bool, true, false, ◌&&◌, not, ◌==◌, ltb, if◌then◌else◌, Option, none,
  some, codes, bit_and, bit_or, bit_xor, u8, u16, u32, add32, sub32, mul32, slt32, Result, ok, err,
  panic, ◌>>=◌, ◌>>◌,
}
use my_oscpu.Config.{Config}
use my_oscpu.Memory.Paddr.{vaddr_read, vaddr_write, vaddr_ifetch}
use my_oscpu.Tracer.Functions.{func_call_trace, func_ret_trace}
use my_oscpu.Riscv.Alu.{
  sext, word_of, sll32, srl32, sra32, sdiv32, srem32, udiv32, urem32, mulh32, mulhu32,
}
use my_oscpu.Riscv.Machine.{
  Machine, get_reg, set_reg, csr_addr2idx, csr_get, csr_set, with_csr, isa_raise_intr,
  set_nemu_state, end, abort, update, with_cpu,
}
use my_oscpu.Riscv.Registers.{isa_reg_str2val}
use my_oscpu.Riscv.Table.{
  OperandType, Row, Instr, lui, auipc, jal, jalr, beq, bne, blt, bge, bltu, bgeu, lb, lh, lw, lbu,
  lhu, sb, sh, sw, addi, slti, sltiu, xori, ori, andi, slli, srli, srai, add, sub, sll, slt, sltu,
  xor, srl, sra, or, and, mul, mulh, mulhu, div, divu, rem, remu, csrrw, csrrs, ecall, ebreak, mret,
  inv, rows, find_row,
}
use my_oscpu.Riscv.Operand.{Operands, decode_operand}

-- `Decode`: the address of the instruction, of the next one in memory, and its word. (`dnpc` is what the
-- functions below return.)
pub record Decode : Type 0 where
  pub pc : ℕ
  pub snpc : ℕ
  pub inst : ℕ

-- The value that `isa_reg_str2val` returns, whether it succeeds or not.
abbrev pub value_or_zero : Option ℕ → ℕ
value_or_zero none = 0
value_or_zero (some v) = v

module _ {D : Type 0} (cfg : Config) where
  -- `Mr` and `Mw`.
  unfoldable pub load_word : ℕ → ℕ → Machine D → Result (ℕ × Machine D)
  load_word addr len m = do
    (v, mem) ← vaddr_read cfg addr len m.memory
    ok (v, record m { memory = mem })

  unfoldable pub store_word : ℕ → ℕ → ℕ → Machine D → Result (Machine D)
  store_word addr len v m = do
    mem ← vaddr_write cfg addr len v m.memory
    ok (record m { memory = mem })

  -- `inst_fetch`: the word at `pc`, and the address behind it.
  unfoldable pub inst_fetch : ℕ → Machine D → Result (ℕ × ℕ × Machine D)
  inst_fetch pc m = do
    (v, mem) ← vaddr_ifetch cfg pc 4 m.memory
    ok (v, add32 pc 4, record m { memory = mem })

  -- `src1 != NULL && *src1 == R(1)`, and the return that it traces. NULL is `none`.
  unfoldable pub func_ret_check : ℕ → Option ℕ → Machine D → Result (Machine D)
  func_ret_check addr_curr none m = ok m
  func_ret_check addr_curr (some v) m = do
    ra ← get_reg cfg 1 m
    if v == ra then ok (record m { trace = func_ret_trace addr_curr m.trace }) else ok m

  -- `func_trace_check`; the pointer `src1` is NULL for `jal`.
  unfoldable pub func_trace_check : ℕ → ℕ → ℕ → Option ℕ → Machine D → Result (Machine D)
  unfolding func_ret_check
  func_trace_check rd addr_curr addr_func src1 m =
      if not cfg.ftrace
      then ok m
      else if rd == 1
      then ok (record m { trace = func_call_trace addr_curr addr_func m.trace })
      else if rd == 0
      then func_ret_check addr_curr src1 m
      else ok m

  -- `invalid_inst`: the two words at the address are fetched for the message.
  unfoldable pub invalid_inst : ℕ → Machine D → Result (Machine D)
  unfolding inst_fetch
  invalid_inst thispc m = do
    (w0, pc1, m1) ← inst_fetch thispc m
    (w1, pc2, m2) ← inst_fetch pc1 m1
    ok (set_nemu_state cfg abort thispc (2 ^ 32 - 1) m2)

  module _ (s : Decode) (o : Operands) (m : Machine D) where
    -- The next address and the machine that a body leaves.
    abbrev Next : Type 0
    Next = Result (ℕ × Machine D)

    -- `R(rd) = v`, falling through to the next instruction.
    unfoldable pub write_rd : ℕ → Result (ℕ × Machine D)
    write_rd v = do m' ← set_reg cfg o.rd v m; ok (s.snpc, m')

    -- `R(rd) = v` for a body whose arithmetic can fail.
    unfoldable pub write_rd_of : Result ℕ → Result (ℕ × Machine D)
    unfolding write_rd
    write_rd_of r = do v ← r; write_rd v

    -- `if (test) s->dnpc = s->pc + imm`.
    unfoldable pub branch : Bool → Result (ℕ × Machine D)
    branch test = ok (if test then add32 s.pc o.imm else s.snpc, m)

    -- `R(rd) = extend(Mr(src1 + imm, len))`.
    unfoldable pub load_rd : ℕ → (ℕ → ℕ) → Result (ℕ × Machine D)
    unfolding load_word
    load_rd len extend = do
      (v, m') ← load_word (add32 o.src1 o.imm) len m
      m'' ← set_reg cfg o.rd (extend v) m'
      ok (s.snpc, m'')

    unfoldable pub store_src2 : ℕ → Result (ℕ × Machine D)
    unfolding store_word
    store_src2 len = do m' ← store_word (add32 o.src1 o.imm) len o.src2 m; ok (s.snpc, m')

    -- `R(rd) = s->snpc; s->dnpc = target`, and the function tracer.
    unfoldable pub jump : ℕ → Option ℕ → Result (ℕ × Machine D)
    jump target src1 = do
      m' ← set_reg cfg o.rd s.snpc m
      m'' ← func_trace_check o.rd s.pc target src1 m'
      ok (target, m'')

    -- `R(rd) = CSR(imm); CSR(imm) = new (CSR(imm))`.
    unfoldable pub access_csr : (ℕ → ℕ) → Result (ℕ × Machine D)
    access_csr new = do
      i ← csr_addr2idx o.imm
      let old = csr_get i m.cpu.csr
      m' ← set_reg cfg o.rd old m
      ok (s.snpc, with_csr m' (csr_set i (new old) m'.cpu.csr))

    -- `ECALL(s->dnpc)`: the number is in a7, or in a5 on RV32E.
    unfoldable pub do_ecall : Result (ℕ × Machine D)
    do_ecall =
        let no_ =
          value_or_zero (isa_reg_str2val cfg m.cpu (codes (if cfg.rve then "a5" else "a7"))) in
        ok (isa_raise_intr no_ s.pc m)

    unfoldable pub do_ebreak : Result (ℕ × Machine D)
    do_ebreak = do a0 ← get_reg cfg 10 m; ok (s.snpc, set_nemu_state cfg end s.pc a0 m)

    unfoldable pub do_invalid : Result (ℕ × Machine D)
    do_invalid = do m' ← invalid_inst s.pc m; ok (s.snpc, m')

    -- The body of each row.
    unfoldable pub exec_instr : Instr → Result (ℕ × Machine D)
    unfolding write_rd write_rd_of branch load_rd store_src2 jump access_csr do_ecall do_ebreak
        do_invalid
    exec_instr lui = write_rd o.imm
    exec_instr auipc = write_rd (add32 s.pc o.imm)
    exec_instr jal = jump (add32 s.pc o.imm) none
    exec_instr jalr = jump (bit_and (add32 o.src1 o.imm) (2 ^ 32 - 2)) (some o.src1)
    exec_instr beq = branch (o.src1 == o.src2)
    exec_instr bne = branch (not (o.src1 == o.src2))
    exec_instr blt = branch (slt32 o.src1 o.src2)
    exec_instr bge = branch (not (slt32 o.src1 o.src2))
    exec_instr bltu = branch (ltb o.src1 o.src2)
    exec_instr bgeu = branch (not (ltb o.src1 o.src2))
    exec_instr lb = load_rd 1 (λ v. u32 (sext v 8))
    exec_instr lh = load_rd 2 (λ v. u32 (sext v 16))
    exec_instr lw = load_rd 4 (λ v. v)
    exec_instr lbu = load_rd 1 (λ v. v)
    exec_instr lhu = load_rd 2 (λ v. v)
    exec_instr sb = store_src2 1
    exec_instr sh = store_src2 2
    exec_instr sw = store_src2 4
    exec_instr addi = write_rd (add32 o.src1 o.imm)
    exec_instr slti = write_rd (word_of (slt32 o.src1 o.imm))
    exec_instr sltiu = write_rd (word_of (ltb o.src1 o.imm))
    exec_instr xori = write_rd (bit_xor o.src1 o.imm)
    exec_instr ori = write_rd (bit_or o.src1 o.imm)
    exec_instr andi = write_rd (bit_and o.src1 o.imm)
    exec_instr slli = write_rd (sll32 o.src1 (bit_and o.imm 0x1f))
    exec_instr srli = write_rd (srl32 o.src1 (bit_and o.imm 0x1f))
    exec_instr srai = write_rd (sra32 o.src1 (bit_and o.imm 0x1f))
    exec_instr add = write_rd (add32 o.src1 o.src2)
    exec_instr sub = write_rd (sub32 o.src1 o.src2)
    exec_instr sll = write_rd (sll32 o.src1 (bit_and o.src2 0x1f))
    exec_instr slt = write_rd (word_of (slt32 o.src1 o.src2))
    exec_instr sltu = write_rd (word_of (ltb o.src1 o.src2))
    exec_instr xor = write_rd (bit_xor o.src1 o.src2)
    exec_instr srl = write_rd (srl32 o.src1 (bit_and o.src2 0x1f))
    exec_instr sra = write_rd (sra32 o.src1 (bit_and o.src2 0x1f))
    exec_instr or = write_rd (bit_or o.src1 o.src2)
    exec_instr and = write_rd (bit_and o.src1 o.src2)
    exec_instr mul = write_rd (mul32 o.src1 o.src2)
    exec_instr mulh = write_rd (mulh32 o.src1 o.src2)
    exec_instr mulhu = write_rd_of (mulhu32 o.src1 o.src2)
    exec_instr div = write_rd_of (sdiv32 o.src1 o.src2)
    exec_instr divu = write_rd_of (udiv32 o.src1 o.src2)
    exec_instr rem = write_rd_of (srem32 o.src1 o.src2)
    exec_instr remu = write_rd_of (urem32 o.src1 o.src2)
    exec_instr csrrw = access_csr (λ old. o.src1)
    exec_instr csrrs = access_csr (λ old. bit_or old o.src1)
    exec_instr ecall = do_ecall
    exec_instr ebreak = do_ebreak
    exec_instr mret = ok (m.cpu.csr.mepc_, with_csr m (record m.cpu.csr { mstatus_ = 0x80 }))
    exec_instr inv = do_invalid

  -- `R(0) = 0`.
  abbrev pub reset_zero : Machine D → Machine D
  reset_zero m = with_cpu m (record m.cpu { gpr = update m.cpu.gpr 0 0 })

  -- The operands and the body of the row that was found, and the end of `decode_exec`.
  unfoldable pub exec_row : Decode → Machine D → Option Row → Result (ℕ × Machine D)
  exec_row s m none = ok (s.snpc, reset_zero m)
  exec_row s m (some r) = do
    o ← decode_operand cfg m s.inst r.type
    (dnpc, m') ← exec_instr s o m r.instr
    ok (dnpc, reset_zero m')

  -- `decode_exec`: the result is `s->dnpc` and the machine.
  unfoldable pub decode_exec : Decode → Machine D → Result (ℕ × Machine D)
  unfolding exec_row
  decode_exec s m = do found ← find_row rows s.inst; exec_row s m found

  -- `isa_exec_once`: what was fetched, `s->dnpc` and the machine.
  unfoldable pub isa_exec_once : ℕ → Machine D → Result (Decode × ℕ × Machine D)
  isa_exec_once pc m = do
    (inst, snpc, m') ← inst_fetch pc m
    let s : Decode = record { pc = pc; snpc = snpc; inst = inst }
    (dnpc, m'') ← decode_exec s m'
    ok (s, dnpc, m'')
