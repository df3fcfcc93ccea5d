-- ===== src/Cpu/Difftest.antt =====
-- nemu/src/cpu/difftest/dut.c and nemu/src/isa/riscv32/difftest/dut.c: each instruction is run on a reference too,
-- and the registers are compared. The reference is a library that is loaded: a parameter.
pub mod Checked
pub mod Keeps
use my_oscpu.Base.{
  ℕ, zero, suc, ◌+◌, ◌-◌, Bool, true, false, ◌&&◌, ◌==◌, ltb, if◌then◌else◌, Result, ok, err, panic,
}
use my_oscpu.Config.{Config}
use my_oscpu.Device.Map.{Difftest}
use my_oscpu.Riscv.Machine.{
  Cpu, CsrIndex, mstatus, mtvec, mepc, mcause, csr_get, Machine, with_bus, abort, nr_gpr,
}

-- `ref_difftest_exec(1)`, and `ref_difftest_regcpy` to the emulator and to the reference.
pub record Reference (R : Type 0) : Type 0 where
  pub exec : R → R
  pub to_dut : R → Cpu
  pub to_ref : Cpu → R → R

-- The loop over `n` registers from register `i` on.
unfoldable pub same_gprs : ℕ → ℕ → Cpu → Cpu → Bool
same_gprs zero i cpu ref_r = true
same_gprs (suc n) i cpu ref_r = (cpu.gpr i == ref_r.gpr i) && same_gprs n (i + 1) cpu ref_r

abbrev pub same_csr : Cpu → Cpu → CsrIndex → Bool
same_csr cpu ref_r i = csr_get i cpu.csr == csr_get i ref_r.csr

unfoldable pub isa_difftest_checkregs : Config → Cpu → Cpu → Bool
unfolding same_gprs
isa_difftest_checkregs cfg cpu ref_r =
    same_gprs (nr_gpr cfg) 0 cpu ref_r
    && ((same_csr cpu ref_r mstatus
          && (same_csr cpu ref_r mtvec && (same_csr cpu ref_r mepc && same_csr cpu ref_r mcause)))
        && (cpu.pc == ref_r.pc))

module _ {D : Type 0} where
  abbrev pub flags : Machine D → Difftest
  flags m = m.memory.bus.difftest

  abbrev pub with_flags : Difftest → Machine D → Machine D
  with_flags d m = with_bus m (record m.memory.bus { difftest = d })

-- `nr_ref` runs of the reference.
abbrev exec_ref : {R : Type 0} → Reference R → ℕ → R → R
exec_ref ref zero r = r
exec_ref ref (suc n) r = exec_ref ref n (ref.exec r)

module _ {D : Type 0} (cfg : Config) where
  unfoldable pub checkregs : Cpu → ℕ → Machine D → Machine D
  unfolding isa_difftest_checkregs
  checkregs ref_r pc m =
      if isa_difftest_checkregs cfg m.cpu ref_r
      then m
      else record m { nemu = record m.nemu { state = abort; halt_pc = pc } }

module _ {D R : Type 0} (ref : Reference R) where
  -- Of numbers that are not negative.
  unfoldable pub difftest_skip_dut : ℕ → ℕ → Machine D × R → Machine D × R
  difftest_skip_dut nr_ref nr_dut s = (
    with_flags (record (flags s.0) { skip_dut_nr_inst = (flags s.0).skip_dut_nr_inst + nr_dut })
        s.0,
    exec_ref ref nr_ref s.1,
  )

module _ {D R : Type 0} (cfg : Config) (ref : Reference R) where
  -- The branch `skip_dut_nr_inst > 0`.
  unfoldable pub catch_up : ℕ → ℕ → Machine D × R → Result (Machine D × R)
  unfolding checkregs
  catch_up pc npc s =
      let ref_r = ref.to_dut s.1 in
      let left = (flags s.0).skip_dut_nr_inst - 1 in
      if ref_r.pc == npc
      then ok (
        checkregs cfg ref_r npc (with_flags (record (flags s.0) { skip_dut_nr_inst = 0 }) s.0),
        s.1,
      )
      else if left == 0
      then err (panic "can not catch up with ref.pc")
      else ok (with_flags (record (flags s.0) { skip_dut_nr_inst = left }) s.0, s.1)

  unfoldable pub difftest_step : ℕ → ℕ → Machine D × R → Result (Machine D × R)
  unfolding catch_up checkregs
  difftest_step pc npc s =
      if ltb 0 (flags s.0).skip_dut_nr_inst
      then catch_up pc npc s
      else if (flags s.0).is_skip_ref
      then ok (with_flags (record (flags s.0) { is_skip_ref = false }) s.0, ref.to_ref s.0.cpu s.1)
      else (let r = ref.exec s.1 in ok (checkregs cfg (ref.to_dut r) pc s.0, r))
