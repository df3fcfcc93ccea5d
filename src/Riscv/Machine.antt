-- ===== src/Riscv/Machine.antt =====
-- The state of the emulator that an instruction can change: nemu/src/isa/riscv32/include/isa-def.h,
-- nemu/src/isa/riscv32/local-include/reg.h, nemu/src/isa/riscv32/system/intr.c, nemu/include/utils.h and
-- nemu/src/engine/interpreter/hostcall.c.
use my_oscpu.Base.{ℕ, ◌==◌, ltb, if◌then◌else◌, Result, ok, err, panic, undefined, ◌>>◌, guard}
use my_oscpu.Config.{Config}
use my_oscpu.Device.Map.{Bus, difftest_skip_ref}
use my_oscpu.Memory.Paddr.{Memory}
use my_oscpu.Tracer.Functions.{FuncTrace}

-- `csr_index`.
pub data CsrIndex : Type 0 where
  mstatus mtvec mepc mcause : CsrIndex

pub record Csrs : Type 0 where
  pub mstatus_ : ℕ
  pub mtvec_ : ℕ
  pub mepc_ : ℕ
  pub mcause_ : ℕ

-- `riscv32_CPU_state`. `gpr` is an array of `nr_gpr` words; an access is checked by `check_reg_idx`.
pub record Cpu : Type 0 where
  pub gpr : ℕ → ℕ
  pub pc : ℕ
  pub csr : Csrs

-- `NEMU_RUNNING` and the others.
pub data RunState : Type 0 where
  running stop end abort quit : RunState

pub record NemuState : Type 0 where
  pub state : RunState
  pub halt_pc : ℕ
  pub halt_ret : ℕ

pub record Machine (D : Type 0) : Type 0 where
  pub cpu : Cpu
  pub memory : Memory D
  pub nemu : NemuState
  pub trace : FuncTrace

abbrev pub nr_gpr : Config → ℕ
nr_gpr cfg = if cfg.rve then 16 else 32

-- `check_reg_idx`: an assertion under CONFIG_RT_CHECK, else the access itself leaves the array.
unfoldable pub check_reg_idx : Config → ℕ → Result (Unit {0})
check_reg_idx cfg idx =
    guard (ltb idx (nr_gpr cfg))
      (if cfg.rt_check then panic "assert(idx >= 0 && idx < 32)" else undefined)

unfoldable pub csr_addr2idx : ℕ → Result CsrIndex
csr_addr2idx addr =
    if addr == 0x300
    then ok mstatus
    else if addr == 0x305
    then ok mtvec
    else if addr == 0x341
    then ok mepc
    else if addr == 0x342
    then ok mcause
    else err (panic "Invalid CSR address")

abbrev pub csr_get : CsrIndex → Csrs → ℕ
csr_get mstatus c = c.mstatus_
csr_get mtvec c = c.mtvec_
csr_get mepc c = c.mepc_
csr_get mcause c = c.mcause_

abbrev pub csr_set : CsrIndex → ℕ → Csrs → Csrs
csr_set mstatus v c = record c { mstatus_ = v }
csr_set mtvec v c = record c { mtvec_ = v }
csr_set mepc v c = record c { mepc_ = v }
csr_set mcause v c = record c { mcause_ = v }

abbrev pub update : (ℕ → ℕ) → ℕ → ℕ → ℕ → ℕ
update f i v j = if j == i then v else f j

module _ {D : Type 0} where
  -- `R(i)` read.
  unfoldable pub get_reg : Config → ℕ → Machine D → Result ℕ
  unfolding check_reg_idx
  get_reg cfg i m = check_reg_idx cfg i >> ok (m.cpu.gpr i)

  abbrev pub with_cpu : Machine D → Cpu → Machine D
  with_cpu m c = record m { cpu = c }

  -- `R(i) = v`.
  unfoldable pub set_reg : Config → ℕ → ℕ → Machine D → Result (Machine D)
  unfolding check_reg_idx
  set_reg cfg i v m =
      check_reg_idx cfg i >> ok (with_cpu m (record m.cpu { gpr = update m.cpu.gpr i v }))

  abbrev pub with_csr : Machine D → Csrs → Machine D
  with_csr m c = with_cpu m (record m.cpu { csr = c })

  -- `isa_raise_intr`: the cause and the return address are saved, and the result is the vector.
  unfoldable pub isa_raise_intr : ℕ → ℕ → Machine D → ℕ × Machine D
  isa_raise_intr no_ epc m = (
    m.cpu.csr.mtvec_,
    with_csr m (record m.cpu.csr { mcause_ = no_; mepc_ = epc; mstatus_ = 0x1800 }),
  )

  abbrev pub with_bus : Machine D → Bus D → Machine D
  with_bus m b = record m { memory = record m.memory { bus = b } }

  -- `set_nemu_state`.
  unfoldable pub set_nemu_state : Config → RunState → ℕ → ℕ → Machine D → Machine D
  unfolding difftest_skip_ref
  set_nemu_state cfg state pc halt_ret m =
      let bus = m.memory.bus in
      record (with_bus m (record bus { difftest = difftest_skip_ref cfg bus.difftest })) {
        nemu = record { state = state; halt_pc = pc; halt_ret = halt_ret };
      }
