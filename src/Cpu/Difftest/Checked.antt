-- ===== src/Cpu/Difftest/Checked.antt =====
-- What a step of the differential test guarantees (nemu/src/cpu/difftest/dut.c).
use my_oscpu.Base.{
  ℕ, zero, suc, ◌+◌, ◌-◌, ◌<◌, ◌≤◌, ◌≡◌, ◌≢◌, ◌↔◌, inl, inr, refl, sym, ◌∙◌, subst, lt→ltb, arith,
  true, false, &&-eq_true, ◌==◌, ==_iff, ==_refl, Bool-cases, ok, err, panic,
}
use my_oscpu.Config.{Config}
use my_oscpu.Riscv.Machine.{Cpu, Machine, nr_gpr, abort}
use my_oscpu.Cpu.Difftest.{
  Reference, same_gprs, isa_difftest_checkregs, checkregs, flags, with_flags, catch_up,
  difftest_step,
}

-- Two processors have the same registers, CSRs and program counter.
pub record Agrees (cfg : Config) (cpu ref_r : Cpu) : Type 0 where
  pub gprs : (i : ℕ) → i < nr_gpr cfg → cpu.gpr i ≡ ref_r.gpr i
  pub mstatus : cpu.csr.mstatus_ ≡ ref_r.csr.mstatus_
  pub mtvec : cpu.csr.mtvec_ ≡ ref_r.csr.mtvec_
  pub mepc : cpu.csr.mepc_ ≡ ref_r.csr.mepc_
  pub mcause : cpu.csr.mcause_ ≡ ref_r.csr.mcause_
  pub pc : cpu.pc ≡ ref_r.pc

same_gprs_sound :
    (n i : ℕ) (a b : Cpu)
    → same_gprs n i a b ≡ true
    → (j : ℕ) → i ≤ j
    → j < i + n
    → a.gpr j ≡ b.gpr j
unfolding same_gprs
same_gprs_sound zero i a b h j p q = absurd (omega arith)
same_gprs_sound (suc n) i a b h j p q =
    let (here, others) = &&-eq_true (a.gpr i == b.gpr i) (same_gprs n (i + 1) a b) h in
    elim (Bool-cases (i == j)) [
      | inl now ↦
          let is : i ≡ j = (==_iff i j).0 now in
          subst (λ k. a.gpr k ≡ b.gpr k) is ((==_iff (a.gpr i) (b.gpr i)).0 here)
      | inr later ↦
          same_gprs_sound n (i + 1) a b others j (ground (arith, later, p)) (omega (arith, q))
    ]

same_gprs_complete :
    (n i : ℕ) (a b : Cpu)
    → ((j : ℕ) → i ≤ j → j < i + n → a.gpr j ≡ b.gpr j)
    → same_gprs n i a b ≡ true
unfolding same_gprs
same_gprs_complete zero i a b h = refl
same_gprs_complete (suc n) i a b h =
    rw (h i (omega arith) (omega arith), ==_refl (b.gpr i))
      (same_gprs_complete n (i + 1) a b (λ j p q. h j (omega arith) (omega arith)))

-- The comparison succeeds exactly if all registers up to the number of the build, the four CSRs and the
-- program counters are equal.
pub isa_difftest_checkregs_iff-Agrees :
    (cfg : Config) (cpu ref_r : Cpu)
    → (isa_difftest_checkregs cfg cpu ref_r ≡ true) ↔ Agrees cfg cpu ref_r
unfolding isa_difftest_checkregs
isa_difftest_checkregs_iff-Agrees cfg cpu ref_r = (
  λ h.
      let (gprs, others) = &&-eq_true (same_gprs (nr_gpr cfg) 0 cpu ref_r) _ h in
      record {
        gprs =
            λ i l. same_gprs_sound (nr_gpr cfg) 0 cpu ref_r gprs i (omega arith) (omega (arith, l));
        mstatus = ground (arith, others);
        mtvec = ground (arith, others);
        mepc = ground (arith, others);
        mcause = ground (arith, others);
        pc = ground (arith, others);
      },
  λ agrees.
      rw
        (
          same_gprs_complete (nr_gpr cfg) 0 cpu ref_r (λ j p q. agrees.gprs j (omega (arith, q))),
          agrees.mstatus,
          agrees.mtvec,
          agrees.mepc,
          agrees.mcause,
          agrees.pc,
          ==_refl ref_r.csr.mstatus_,
          ==_refl ref_r.csr.mtvec_,
          ==_refl ref_r.csr.mepc_,
          ==_refl ref_r.csr.mcause_,
          ==_refl ref_r.pc,
        )
        refl,
)

true_not_false : true ≢ false
true_not_false e = cc

module _ {D R : Type 0} (cfg : Config) (ref : Reference R) where
  abbrev pub skipped : Machine D × R → ℕ
  skipped s = (flags s.0).skip_dut_nr_inst

  -- A comparison at the address `pc`, of the emulator `m` with the reference `r`, leaves `s`: where all registers
  -- agree, nothing changes; where one differs, the state is ABORT with that address. The reference is left as `r`.
  pub record IsCompared (pc : ℕ) (m : Machine D) (r : R) (s : Machine D × R) : Type 0 where
    pub same : Agrees cfg m.cpu (ref.to_dut r) → s.0 ≡ m
    pub differs :
        ¬ Agrees cfg m.cpu (ref.to_dut r) → (s.0.nemu.state ≡ abort) × (s.0.nemu.halt_pc ≡ pc)
    pub cpu : s.0.cpu ≡ m.cpu
    pub kept : flags s.0 ≡ flags m
    pub reference : s.1 ≡ r

  checkregs-IsCompared :
      (pc : ℕ) (m : Machine D) (r : R) → IsCompared pc m r (checkregs cfg (ref.to_dut r) pc m, r)
  unfolding checkregs
  checkregs-IsCompared pc m r =
      elim (Bool-cases (isa_difftest_checkregs cfg m.cpu (ref.to_dut r))) [
        | inl same ↦
            let agrees = (isa_difftest_checkregs_iff-Agrees cfg m.cpu (ref.to_dut r)).0 same in
            rw same (record {
              same = λ _. refl;
              differs = λ no. absurd (no agrees);
              cpu = refl;
              kept = refl;
              reference = refl;
            })
        | inr other ↦ rw other (record {
          same = λ agrees. absurd (
              true_not_false (
                sym ((isa_difftest_checkregs_iff-Agrees cfg m.cpu (ref.to_dut r)).1 agrees)
                ∙ other));
          differs = λ _. (refl, refl);
          cpu = refl;
          kept = refl;
          reference = refl;
        })
      ]

  -- The reference has been given the registers, instead of running the instruction.
  pub record IsGiven (s s' : Machine D × R) : Type 0 where
    pub reference : s'.1 ≡ ref.to_ref s.0.cpu s.1
    pub machine : (s'.0.cpu ≡ s.0.cpu) × (s'.0.nemu ≡ s.0.nemu)
    pub flag : (flags s'.0).is_skip_ref ≡ false
    pub kept : skipped s' ≡ skipped s

  -- The emulator waits for the reference, and nothing is compared.
  pub record IsWaiting (s s' : Machine D × R) : Type 0 where
    pub left : skipped s' ≡ skipped s - 1
    pub machine : (s'.0.cpu ≡ s.0.cpu) × (s'.0.nemu ≡ s.0.nemu)
    pub reference : s'.1 ≡ s.1

  -- A step of the differential test, in all its cases. Where no instructions of the emulator are to be skipped, and
  -- the reference is not either, the reference runs one instruction and all registers are compared. Where the
  -- reference is to be skipped, it is given the registers, and the flag is taken back. Where instructions are to be
  -- skipped, the reference does not run: if it stands at the next pc, all registers are compared and none are left
  -- to skip; if it does not, one fewer is left, and the emulator panics when none is.
  pub difftest_step-IsChecked :
      (pc npc : ℕ) (s : Machine D × R)
      → (skipped s ≡ 0
          → (flags s.0).is_skip_ref ≡ false
          → (s' : Machine D × R) × (difftest_step cfg ref pc npc s ≡ ok s')
            × IsCompared pc s.0 (ref.exec s.1) s')
        × (skipped s ≡ 0
            → (flags s.0).is_skip_ref ≡ true
            → (s' : Machine D × R) × (difftest_step cfg ref pc npc s ≡ ok s') × IsGiven s s')
        × (0 < skipped s
            → (ref.to_dut s.1).pc ≡ npc
            → (s' : Machine D × R) × (difftest_step cfg ref pc npc s ≡ ok s')
              × IsCompared npc
                  (with_flags (record (flags s.0) { skip_dut_nr_inst = 0 }) s.0)
                  s.1
                  s')
        × (1 < skipped s
            → (ref.to_dut s.1).pc ≢ npc
            → (s' : Machine D × R) × (difftest_step cfg ref pc npc s ≡ ok s') × IsWaiting s s')
        × (skipped s ≡ 1
            → (ref.to_dut s.1).pc ≢ npc
            → difftest_step cfg ref pc npc s ≡ err (panic "can not catch up with ref.pc"))
  unfolding difftest_step catch_up
  difftest_step-IsChecked pc npc s =
      let r : R = ref.exec s.1 in
      let m : Machine D = with_flags (record (flags s.0) { skip_dut_nr_inst = 0 }) s.0 in
      (
        λ none_left check. (
          (checkregs cfg (ref.to_dut r) pc s.0, r),
          rw (none_left, check) refl,
          checkregs-IsCompared pc s.0 r,
        ),
        λ none_left skip. (
          (with_flags (record (flags s.0) { is_skip_ref = false }) s.0, ref.to_ref s.0.cpu s.1),
          rw (none_left, skip) refl,
          record { reference = refl; machine = (refl, refl); flag = refl; kept = refl },
        ),
        λ some_left caught. (
          (checkregs cfg (ref.to_dut s.1) npc m, s.1),
          rw (lt→ltb 0 (skipped s) some_left, is_equal caught) refl,
          checkregs-IsCompared npc m s.1,
        ),
        λ more behind. (
          (with_flags (record (flags s.0) { skip_dut_nr_inst = skipped s - 1 }) s.0, s.1),
          rw (lt→ltb 0 (skipped s) (omega (arith, more)), is_other behind, not_last more) refl,
          record { left = refl; machine = (refl, refl); reference = refl },
        ),
        λ last behind. rw (last, is_other behind) refl,
      )
    where
      is_equal : {a b : ℕ} → a ≡ b → (a == b) ≡ true
      is_equal e = ground (arith, e)

      is_other : {a b : ℕ} → a ≢ b → (a == b) ≡ false
      is_other e = ground (arith, e)

      not_last : {a : ℕ} → 1 < a → (a - 1 == 0) ≡ false
      not_last h = ground (arith, h)
