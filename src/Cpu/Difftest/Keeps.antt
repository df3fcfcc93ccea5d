-- ===== src/Cpu/Difftest/Keeps.antt =====
-- The differential test changes no register of the emulator (nemu/src/cpu/difftest/dut.c).
use my_oscpu.Base.{ℕ, ◌-◌, ltb, ◌==◌, Bool-cases, inl, inr}
use my_oscpu.Config.{Config}
use my_oscpu.Memory.Valid.{Ensures, Ensures-if}
use my_oscpu.Device.Map.{Difftest}
use my_oscpu.Riscv.Machine.{Machine, Cpu, NemuState}
use my_oscpu.Sdb.Eval.Keeps.{Keeps}
use my_oscpu.Cpu.Difftest.{
  Reference, isa_difftest_checkregs, checkregs, flags, with_flags, catch_up, difftest_step,
}

module _ {D : Type 0} (cfg : Config) (c : Cpu) where
  with_nemu-Keeps : (m : Machine D) (n : NemuState) → Keeps c m → Keeps c (record m { nemu = n })
  with_nemu-Keeps m n k = record {
    valid = record {
      words = k.valid.words;
      csrs = k.valid.csrs;
      memory = k.valid.memory;
      pc = k.valid.pc;
    };
    same = k.same;
  }

  with_flags-Keeps : (m : Machine D) (d : Difftest) → Keeps c m → Keeps c (with_flags d m)
  with_flags-Keeps m d k = record {
    valid = record {
      words = k.valid.words;
      csrs = k.valid.csrs;
      memory = record {
        pmem = k.valid.memory.pmem;
        space = k.valid.memory.space;
        callbacks = k.valid.memory.callbacks;
      };
      pc = k.valid.pc;
    };
    same = k.same;
  }

  checkregs-Keeps :
      (ref_r : Cpu) (pc : ℕ) (m : Machine D) → Keeps c m → Keeps c (checkregs cfg ref_r pc m)
  unfolding checkregs
  checkregs-Keeps ref_r pc m k = elim (Bool-cases (isa_difftest_checkregs cfg m.cpu ref_r)) [
    | inl same ↦ rw same k
    | inr differs ↦ rw differs (with_nemu-Keeps m _ k)
  ]

module _ {D R : Type 0} (cfg : Config) (ref : Reference R) (c : Cpu) where
  pub difftest_step-Keeps :
      (pc npc : ℕ) (s : Machine D × R)
      → Keeps c s.0
      → Ensures (λ (s' : Machine D × R). Keeps c s'.0) (difftest_step cfg ref pc npc s)
  unfolding difftest_step catch_up
  difftest_step-Keeps pc npc s k =
      let P : Machine D × R → Type 0 = λ s'. Keeps c s'.0 in
      Ensures-if P (ltb 0 (flags s.0).skip_dut_nr_inst) _ _
        (Ensures-if P ((ref.to_dut s.1).pc == npc) _ _
          (checkregs-Keeps cfg c (ref.to_dut s.1) npc _ (with_flags-Keeps cfg c s.0 _ k))
          (Ensures-if P ((flags s.0).skip_dut_nr_inst - 1 == 0) _ _ tt
            (with_flags-Keeps cfg c s.0 _ k)))
        (Ensures-if P (flags s.0).is_skip_ref _ _ (with_flags-Keeps cfg c s.0 _ k)
          (checkregs-Keeps cfg c (ref.to_dut (ref.exec s.1)) pc s.0 k))
