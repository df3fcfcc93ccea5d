-- ===== src/Riscv/Exec/Valid.antt =====
-- Every instruction keeps registers, next address and memory within their widths, and leaves x0 zero
-- (nemu/src/isa/riscv32/inst.c).
use my_oscpu.Base.{ℕ, ◌-◌, ◌^◌, arith, not, ◌==◌, ltb, Option, none, some, ok}
use my_oscpu.Config.{Config}
use my_oscpu.Memory.Paddr.{Memory, vaddr_read, vaddr_ifetch}
use my_oscpu.Memory.Valid.{
  Ensures, Ensures-bind, Ensures-of_eq, Ensures-guard, Ensures-if, paddr_read-valid,
  paddr_write-valid,
}
use my_oscpu.Memory.Valid
use my_oscpu.Tracer.Functions.{FuncTrace, func_call_trace, func_ret_trace}
use my_oscpu.Riscv.Alu.Bounds.{IsWord}
use my_oscpu.Riscv.Machine.{
  Csrs, Machine, CsrIndex, get_reg, set_reg, with_cpu, csr_get, csr_set, set_nemu_state, nr_gpr,
  RunState, abort,
}
use my_oscpu.Riscv.Operand.{Operands}
use my_oscpu.Riscv.Exec.{load_word, inst_fetch, func_ret_check, func_trace_check, invalid_inst}

pub record IsCsrs (c : Csrs) : Type 0 where
  pub mstatus : IsWord c.mstatus_
  pub mtvec : IsWord c.mtvec_
  pub mepc : IsWord c.mepc_
  pub mcause : IsWord c.mcause_

module _ {D : Type 0} where
  pub record IsValid (m : Machine D) : Type 0 where
    pub words : (i : ℕ) → IsWord (m.cpu.gpr i)
    pub csrs : IsCsrs m.cpu.csr
    pub memory : Valid.IsValid m.memory
    pub pc : IsWord m.cpu.pc

  -- What holds of the next address and the machine.
  abbrev pub IsNext : ℕ × Machine D → Type 0
  IsNext r = IsWord r.0 × IsValid r.1

pub record IsOperands (o : Operands) : Type 0 where
  pub src1 : IsWord o.src1
  pub src2 : IsWord o.src2
  pub imm : IsWord o.imm

pub csr_set-IsCsrs :
    (i : CsrIndex) (x : ℕ) (c : Csrs) → IsWord x → IsCsrs c → IsCsrs (csr_set i x c)
csr_set-IsCsrs i x c h v = ground arith

pub csr_get-IsWord : (i : CsrIndex) (c : Csrs) → IsCsrs c → IsWord (csr_get i c)
csr_get-IsWord i c v = ground arith

module _ {D : Type 0} (cfg : Config) where
  pub get_reg-IsWord : (i : ℕ) (m : Machine D) → IsValid m → Ensures IsWord (get_reg cfg i m)
  unfolding get_reg
  get_reg-IsWord i m v =
      Ensures-guard IsWord (ltb i (nr_gpr cfg)) _ (ok (m.cpu.gpr i)) λ _. v.words i

  pub set_reg-IsValid :
      (i x : ℕ) (m : Machine D)
      → IsWord x
      → IsValid m
      → Ensures (λ (m' : Machine D). IsValid m') (set_reg cfg i x m)
  unfolding set_reg
  set_reg-IsValid i x m h v = Ensures-guard _ (ltb i (nr_gpr cfg)) _ _ λ _. record {
    words = λ j. ground (arith, v.words j);
    csrs = v.csrs;
    memory = v.memory;
    pc = v.pc;
  }

  -- The machine with other CSRs.
  pub with_csr-IsValid :
      (m : Machine D) (c : Csrs)
      → IsCsrs c
      → IsValid m
      → IsValid (with_cpu m (record m.cpu { csr = c }))
  with_csr-IsValid m c h v = record { words = v.words; csrs = h; memory = v.memory; pc = v.pc }

  pub set_nemu_state-IsValid :
      (s : RunState) (pc r : ℕ) (m : Machine D) → IsValid m → IsValid (set_nemu_state cfg s pc r m)
  unfolding set_nemu_state
  set_nemu_state-IsValid s pc r m v = record {
    words = v.words;
    csrs = v.csrs;
    memory = record {
      pmem = v.memory.pmem;
      space = v.memory.space;
      callbacks = v.memory.callbacks;
    };
    pc = v.pc;
  }

  pub with_memory-IsValid :
      (m : Machine D) (mem : Memory D)
      → Valid.IsValid mem
      → IsValid m
      → IsValid (record m { memory = mem })
  with_memory-IsValid m mem h v = record { words = v.words; csrs = v.csrs; memory = h; pc = v.pc }

  pub load_word-IsNext :
      (addr len : ℕ) (m : Machine D) → IsValid m → Ensures IsNext (load_word cfg addr len m)
  unfolding load_word vaddr_read
  load_word-IsNext addr len m v =
      Ensures-bind _ _ (vaddr_read cfg addr len m.memory) _
        (paddr_read-valid cfg addr len m.memory v.memory)
        λ r p. (p.0, with_memory-IsValid m r.1 p.1 v)

  pub inst_fetch-IsNext :
      (pc : ℕ) (m : Machine D)
      → IsValid m
      → Ensures
          (λ (r : ℕ × ℕ × Machine D). IsWord r.0 × IsWord r.1 × IsValid r.2)
          (inst_fetch cfg pc m)
  unfolding inst_fetch vaddr_ifetch
  inst_fetch-IsNext pc m v =
      Ensures-bind _ _ (vaddr_ifetch cfg pc 4 m.memory) _
        (paddr_read-valid cfg pc 4 m.memory v.memory)
        λ r p. (p.0, omega arith, with_memory-IsValid m r.1 p.1 v)

  with_trace-IsValid :
      (m : Machine D) (t : FuncTrace) → IsValid m → IsValid (record m { trace = t })
  with_trace-IsValid m t v = record { words = v.words; csrs = v.csrs; memory = v.memory; pc = v.pc }

  func_ret_check-IsValid :
      (a : ℕ) (src1 : Option ℕ) (m : Machine D)
      → IsValid m
      → Ensures (λ (m' : Machine D). IsValid m') (func_ret_check cfg a src1 m)
  unfolding func_ret_check
  func_ret_check-IsValid a none m v = v
  func_ret_check-IsValid a (some x) m v =
      Ensures-bind _ _ (get_reg cfg 1 m) _ (get_reg-IsWord 1 m v)
        λ ra _. Ensures-if _ (x == ra) _ _ (with_trace-IsValid m (func_ret_trace a m.trace) v) v

  pub func_trace_check-IsValid :
      (rd a f : ℕ) (src1 : Option ℕ) (m : Machine D)
      → IsValid m
      → Ensures (λ (m' : Machine D). IsValid m') (func_trace_check cfg rd a f src1 m)
  unfolding func_trace_check
  func_trace_check-IsValid rd a f src1 m v = Ensures-if _ (not cfg.ftrace) _ _ v (
      Ensures-if _ (rd == 1) _ _ (with_trace-IsValid m (func_call_trace a f m.trace) v)
        (Ensures-if _ (rd == 0) _ _ (func_ret_check-IsValid a src1 m v) v))

  pub invalid_inst-IsValid :
      (pc : ℕ) (m : Machine D)
      → IsValid m
      → Ensures (λ (m' : Machine D). IsValid m') (invalid_inst cfg pc m)
  unfolding invalid_inst
  invalid_inst-IsValid pc m v =
      Ensures-bind _ _ (inst_fetch cfg pc m) _ (inst_fetch-IsNext pc m v) λ r p.
        Ensures-bind _ _ (inst_fetch cfg r.1 r.2) _ (inst_fetch-IsNext r.1 r.2 p.2)
          λ q p'. set_nemu_state-IsValid abort pc (2 ^ 32 - 1) q.2 p'.2
