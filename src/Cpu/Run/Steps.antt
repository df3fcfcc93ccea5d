-- ===== src/Cpu/Run/Steps.antt =====
-- The runs of the emulator, instruction by instruction, and the loop `execute` of nemu/src/cpu/cpu-exec.c.
use my_oscpu.Base.{
  ℕ, zero, suc, ◌+◌, ◌%◌, ◌^◌, ◌≤◌, ◌≡◌, ◌⊎◌, ◌↔◌, inl, inr, refl, ap, sym, ◌∙◌, subst, arith, true,
  false, Bool-cases, Result, ok, err, ◌>>=◌,
}
use my_oscpu.Config.{Config}
use my_oscpu.Tracer.Ring.{RingBuffer}
use my_oscpu.Tracer.Inst.{inst_trace}
use my_oscpu.Riscv.Exec.{Decode, isa_exec_once}
use my_oscpu.Riscv.Machine.{Machine, with_cpu}
use my_oscpu.Cpu.Run.{
  Emulator, Outside, is_running, state_of, run_once, step_devices, execute, exec_once,
  trace_and_difftest,
}

-- A result that a chain of two calls gives comes from one of the first.
bind_inv {ℓ κ} :
    {A : Type ℓ} {B : Type κ} (r : Result A) (f : A → Result B) {b : B}
    → (r >>= f) ≡ ok b
    → (a : A) × (r ≡ ok a) × (f a ≡ ok b)
bind_inv (ok a) f e = (a, refl, e)
bind_inv (err x) f e = cc

ok_inj {ℓ} : {A : Type ℓ} {a b : A} → ok a ≡ ok b → a ≡ b
ok_inj e = cc

module _ {D R : Type 0} (cfg : Config) (o : Outside D R) where
  -- The emulator behind the instruction at its pc, before it is checked: the machine is what the instruction leaves,
  -- at the next address, and one more instruction is counted.
  abbrev pub behind : Emulator D R → ℕ → Machine D → RingBuffer → Emulator D R
  behind e dnpc m ring = record e {
    machine = with_cpu m (record m.cpu { pc = dnpc });
    ring = ring;
    g_nr_guest_inst = (e.g_nr_guest_inst + 1) % 2 ^ 64;
  }

  -- One instruction is run at the pc of `e`, traced and checked, which leaves `e'`.
  pub record RunsInstruction (e e' : Emulator D R) : Type 0 where
    pub decoded : Decode
    pub dnpc : ℕ
    pub machine : Machine D
    pub ring : RingBuffer
    pub runs : isa_exec_once cfg e.machine.cpu.pc e.machine ≡ ok (decoded, dnpc, machine)
    pub traces : inst_trace cfg o.print_inst decoded e.ring ≡ ok ring
    pub checks : trace_and_difftest cfg o decoded.pc dnpc (behind e dnpc machine ring) ≡ ok e'

  -- From one emulator `k` instructions lead to another, where at most `n` are to be run. The devices are updated
  -- behind each instruction that leaves the state RUNNING, and one that does not is the last.
  pub data Runs : ℕ → ℕ → Emulator D R → Emulator D R → Type 0 where
    done : (e : Emulator D R) → Runs 0 0 e e
    breaks :
        (n : ℕ) (e e' : Emulator D R)
        → RunsInstruction e e'
        → is_running (state_of e') ≡ false
        → Runs (suc n) 1 e e'
    goes_on :
        (n k : ℕ) (e e1 e2 e' : Emulator D R)
        → RunsInstruction e e1
        → is_running (state_of e1) ≡ true
        → step_devices cfg o e1 ≡ ok e2
        → Runs n k e2 e'
        → Runs (suc n) (suc k) e e'

  pub run_once-RunsInstruction :
      (e e' : Emulator D R) → (run_once cfg o e ≡ ok e') ↔ RunsInstruction e e'
  unfolding run_once exec_once
  run_once-RunsInstruction e e' = (
    λ is.
        let (r, first, second) = bind_inv (exec_once cfg o e.machine.cpu.pc e) _ is in
        let (x, runs, rest) = bind_inv (isa_exec_once cfg e.machine.cpu.pc e.machine) _ first in
        let (ring, traces, gives) = bind_inv (inst_trace cfg o.print_inst x.0 e.ring) _ rest in
        let after : (
          x.0,
          record e { machine = with_cpu x.2 (record x.2.cpu { pc = x.1 }); ring = ring },
        )
            ≡ r =
          ok_inj gives in
        record {
          decoded = x.0;
          dnpc = x.1;
          machine = x.2;
          ring = ring;
          runs = runs;
          traces = traces;
          checks =
              subst
                (λ (r : Decode × Emulator D R).
                  trace_and_difftest cfg o r.0.pc r.1.machine.cpu.pc
                    (record r.1 { g_nr_guest_inst = (r.1.g_nr_guest_inst + 1) % 2 ^ 64 })
                  ≡ ok e')
                (sym after) second;
        },
    λ i. rw (i.runs, i.traces) i.checks,
  )

  pub execute-Runs :
      (n : ℕ) (e e' : Emulator D R) → execute cfg o n e ≡ ok e' → (k : ℕ) × Runs n k e e'
  unfolding execute
  execute-Runs zero e e' is = (0, subst (Runs 0 0 e) (ok_inj is) (done e))
  execute-Runs (suc n) e e' is =
      let (e1, one, rest) = bind_inv (run_once cfg o e) _ is in
      let step = (run_once-RunsInstruction e e1).0 one in
      elim (Bool-cases (is_running (state_of e1))) [
        | inl goes ↦
            let (e2, devices, loop) = bind_inv (step_devices cfg o e1) (execute cfg o n) (
              subst
                (λ b.
                  elim b [ false ↦ ok e1 | true ↦ step_devices cfg o e1 >>= execute cfg o n ]
                  ≡ ok e')
                goes rest) in
            let (k, more) = execute-Runs n e2 e' loop in
            (suc k, goes_on n k e e1 e2 e' step goes devices more)
        | inr broke ↦
            let same : e1 ≡ e' = ok_inj (
              subst
                (λ b.
                  elim b [ false ↦ ok e1 | true ↦ step_devices cfg o e1 >>= execute cfg o n ]
                  ≡ ok e')
                broke rest) in
            (1, subst (Runs (suc n) 1 e) same (breaks n e e1 step broke))
      ]

  -- The loop behind an instruction.
  abbrev loop_from : ℕ → Emulator D R → Result (Emulator D R)
  loop_from n e = elim (is_running (state_of e)) [
    | false ↦ ok e
    | true ↦ step_devices cfg o e >>= execute cfg o n
  ]

  loop_from_broke :
      (n : ℕ) (e : Emulator D R) → is_running (state_of e) ≡ false → loop_from n e ≡ ok e
  loop_from_broke n e broke = rw (broke, loop_from) refl

  loop_from_goes :
      (n : ℕ) (e : Emulator D R)
      → is_running (state_of e) ≡ true
      → loop_from n e ≡ (step_devices cfg o e >>= execute cfg o n)
  loop_from_goes n e goes = rw (goes, loop_from) refl

  Runs-execute : {n k : ℕ} {e e' : Emulator D R} → Runs n k e e' → execute cfg o n e ≡ ok e'
  unfolding execute
  Runs-execute (done e) = refl
  Runs-execute (breaks n e e' step broke) =
      ap (λ r. r >>= loop_from n) ((run_once-RunsInstruction e e').1 step)
      ∙ loop_from_broke n e' broke
  Runs-execute (goes_on n k e e1 e2 e' step goes devices more) =
      ap (λ r. r >>= loop_from n) ((run_once-RunsInstruction e e1).1 step)
      ∙ loop_from_goes n e1 goes
      ∙ ap (λ r. r >>= execute cfg o n) devices
      ∙ Runs-execute more

  pub Runs-few : {n k : ℕ} {e e' : Emulator D R} → Runs n k e e' → k ≤ n
  Runs-few (done e) = omega arith
  Runs-few (breaks n e e' step broke) = omega arith
  Runs-few (goes_on n k e e1 e2 e' step goes devices more) = omega (arith, Runs-few more)

  Runs-all :
      {n k : ℕ} {e e' : Emulator D R} → Runs n k e e' → (k ≡ n) ⊎ (is_running (state_of e') ≡ false)
  Runs-all (done e) = inl refl
  Runs-all (breaks n e e' step broke) = inr broke
  Runs-all (goes_on n k e e1 e2 e' step goes devices more) = ground (arith, Runs-all more)

  -- `execute` for `n` instructions returns an emulator exactly if a run of some number of instructions leads to it, of
  -- which each is executed at the pc that the one before left, traced and checked, with the devices updated in
  -- between, and which is over when the state behind an instruction is not RUNNING; the number is at most `n`, and
  -- smaller only if the state is not RUNNING.
  pub execute_iff-Runs :
      (n : ℕ) (e e' : Emulator D R)
      → (execute cfg o n e ≡ ok e')
        ↔ ((k : ℕ) × Runs n k e e' × (k ≤ n) × ((k ≡ n) ⊎ (is_running (state_of e') ≡ false)))
  execute_iff-Runs n e e' = (
    λ is. let (k, run) = execute-Runs n e e' is in (k, run, Runs-few run, Runs-all run),
    λ r. Runs-execute r.1,
  )
