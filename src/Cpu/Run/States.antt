-- ===== src/Cpu/Run/States.antt =====
-- How many instructions `cpu_exec` of nemu/src/cpu/cpu-exec.c runs, and the state that it leaves.
use my_oscpu.Base.{
  ℕ, ◌+◌, ◌%◌, ◌^◌, ◌≤◌, ◌<◌, ◌≡◌, ◌≢◌, inl, inr, refl, ap, sym, ◌∙◌, subst, arith, true, false,
  Bool-cases, ltb, ok,
}
use my_oscpu.Config.{Config}
use my_oscpu.Device.Update.{device_update}
use my_oscpu.Tracer.Inst.{inst_trace}
use my_oscpu.Riscv.Exec.{Decode, isa_exec_once}
use my_oscpu.Riscv.Machine.{RunState, running, stop}
use my_oscpu.Memory.Valid.{
  Ensures, Ensures-bind, Ensures-any, Ensures-if, Ensures-map, Ensures-of_eq,
}
use my_oscpu.Sdb.Watchpoint.Check.{check_wp}
use my_oscpu.Cpu.Difftest.{difftest_step}
use my_oscpu.Cpu.Run.Steps.{
  Runs, done, breaks, goes_on, run_once-RunsInstruction, execute-Runs, Runs-few,
}
use my_oscpu.Cpu.Run.{
  Emulator, Outside, is_running, has_ended, state_of, set_state, run_once, step_devices, execute,
  run_timed, cpu_exec, max_inst_to_print, exec_once, trace_and_difftest, step_reference,
  step_watchpoints, stop_running, timed,
}

ended-not_running : (s : RunState) → has_ended s ≡ true → is_running s ≡ false
ended-not_running s h = ground arith

true_not_false : true ≢ false
true_not_false e = cc

module _ {D R : Type 0} (cfg : Config) (o : Outside D R) where
  -- The count of an emulator is `c`.
  Counts : ℕ → Emulator D R → Type 0
  Counts c e = e.g_nr_guest_inst ≡ c

  exec_once-Counts :
      (pc : ℕ) (e : Emulator D R)
      → Ensures (λ (r : Decode × Emulator D R). Counts e.g_nr_guest_inst r.1) (exec_once cfg o pc e)
  unfolding exec_once Counts
  exec_once-Counts pc e =
      Ensures-bind _ _ (isa_exec_once cfg pc e.machine) _
        (Ensures-any (isa_exec_once cfg pc e.machine))
        λ r t.
          Ensures-bind _ _ (inst_trace cfg o.print_inst r.0 e.ring) _
            (Ensures-any (inst_trace cfg o.print_inst r.0 e.ring)) λ ring u. refl

  trace_and_difftest-Counts :
      (pc dnpc : ℕ) (e : Emulator D R)
      → Ensures (Counts e.g_nr_guest_inst) (trace_and_difftest cfg o pc dnpc e)
  unfolding trace_and_difftest step_reference step_watchpoints Counts
  trace_and_difftest-Counts pc dnpc e =
      Ensures-bind (Counts e.g_nr_guest_inst) (Counts e.g_nr_guest_inst)
        (step_reference cfg o pc dnpc e) _
        (Ensures-if (Counts e.g_nr_guest_inst) cfg.difftest _ _
          (Ensures-bind _ _ (difftest_step cfg o.reference pc dnpc (e.machine, e.ref)) _
            (Ensures-any (difftest_step cfg o.reference pc dnpc (e.machine, e.ref))) λ r t. refl)
          refl)
        λ e1 same.
          Ensures-if (Counts e.g_nr_guest_inst) cfg.watchpoint _ _
            (Ensures-bind _ _ (check_wp cfg o.libc e1.pool e1.machine) _
              (Ensures-any (check_wp cfg o.libc e1.pool e1.machine)) λ r t. same)
            same

  run_once-Counts :
      (e : Emulator D R) → Ensures (Counts ((e.g_nr_guest_inst + 1) % 2 ^ 64)) (run_once cfg o e)
  unfolding run_once Counts
  run_once-Counts e =
      let c : ℕ = (e.g_nr_guest_inst + 1) % 2 ^ 64 in
      Ensures-bind (λ (r : Decode × Emulator D R). Counts e.g_nr_guest_inst r.1) (Counts c)
        (exec_once cfg o e.machine.cpu.pc e) _ (exec_once-Counts e.machine.cpu.pc e)
        λ r same.
          let e1 : Emulator D R = record r.1 {
            g_nr_guest_inst = (r.1.g_nr_guest_inst + 1) % 2 ^ 64;
          } in
          Ensures-map (Counts e1.g_nr_guest_inst) (Counts c)
            (trace_and_difftest cfg o r.0.pc r.1.machine.cpu.pc e1)
            (λ e2 is. is ∙ ap (λ k. (k + 1) % 2 ^ 64) same)
            (trace_and_difftest-Counts r.0.pc r.1.machine.cpu.pc e1)

  step_devices-Counts :
      (e : Emulator D R) → Ensures (Counts e.g_nr_guest_inst) (step_devices cfg o e)
  unfolding step_devices Counts
  step_devices-Counts e =
      Ensures-if (Counts e.g_nr_guest_inst) cfg.device _ _
        (Ensures-bind _ _
          (device_update cfg o.host (is_running (state_of e)) e.updates e.machine.memory.bus.io) _
          (Ensures-any
            (device_update cfg o.host (is_running (state_of e)) e.updates e.machine.memory.bus.io))
          λ r t. refl)
        refl

  -- The counter of instructions, a uint64_t, grows by the number that were run.
  Runs-count :
      {n k : ℕ} {e e' : Emulator D R}
      → Runs cfg o n k e e'
      → e.g_nr_guest_inst < 2 ^ 64
      → e'.g_nr_guest_inst ≡ (e.g_nr_guest_inst + k) % 2 ^ 64
  unfolding Counts
  Runs-count (done e) small = omega (arith, small)
  Runs-count (breaks n e e' step broke) small =
      subst (Ensures (Counts ((e.g_nr_guest_inst + 1) % 2 ^ 64)))
        ((run_once-RunsInstruction cfg o e e').1 step) (run_once-Counts e)
  Runs-count (goes_on n k e e1 e2 e' step goes devices more) small =
      let one : e1.g_nr_guest_inst ≡ (e.g_nr_guest_inst + 1) % 2 ^ 64 =
        subst (Ensures (Counts ((e.g_nr_guest_inst + 1) % 2 ^ 64)))
          ((run_once-RunsInstruction cfg o e e1).1 step) (run_once-Counts e) in
      let same : e2.g_nr_guest_inst ≡ e1.g_nr_guest_inst =
        subst (Ensures (Counts e1.g_nr_guest_inst)) devices (step_devices-Counts e1) in
      omega (arith, one, same, Runs-count more (omega (arith, one, same)))

  -- The emulator in which the run begins: the state is RUNNING and the clock is read.
  abbrev pub begun : ℕ → Emulator D R → Emulator D R
  begun n e =
      (timed cfg o (set_state running (record e { g_print_step = ltb n max_inst_to_print }))).1

  -- The run between: of `k` instructions, which the counter tells, it leads to the registers and the memory of `e'`,
  -- and the state is the run's, but STOP for RUNNING.
  pub record HasRun (n : ℕ) (e e' : Emulator D R) : Type 0 where
    pub k : ℕ
    pub last : Emulator D R
    pub run : Runs cfg o n k (begun n e) last
    pub few : k ≤ n
    pub counted : e'.g_nr_guest_inst ≡ (e.g_nr_guest_inst + k) % 2 ^ 64
    pub cpu : e'.machine.cpu ≡ last.machine.cpu
    pub pmem : e'.machine.memory.pmem ≡ last.machine.memory.pmem
    pub stopped : is_running (state_of last) ≡ true → state_of e' ≡ stop
    pub ended : is_running (state_of last) ≡ false → state_of e' ≡ state_of last

  stop_running-running : (s : RunState) → is_running s ≡ true → stop_running cfg o s ≡ stop
  stop_running-running s h = ground arith

  stop_running-others : (s : RunState) → is_running s ≡ false → stop_running cfg o s ≡ s
  stop_running-others s h = ground arith

  stop_running-eq : (s : RunState) → is_running (stop_running cfg o s) ≡ false
  stop_running-eq s = ground arith

  HasStopped : ℕ → Emulator D R → Emulator D R → Type 0
  HasStopped n e e' = (is_running (state_of e') ≡ false) × HasRun n e e'

  run_timed-HasStopped :
      (n : ℕ) (e : Emulator D R)
      → e.g_nr_guest_inst < 2 ^ 64
      → Ensures
          (HasStopped n e)
          (run_timed cfg o n (record e { g_print_step = ltb n max_inst_to_print }))
  unfolding run_timed HasStopped
  run_timed-HasStopped n e small =
      Ensures-bind (λ e2. execute cfg o n (begun n e) ≡ ok e2) (HasStopped n e)
        (execute cfg o n (begun n e)) _
        (Ensures-of_eq _ (execute cfg o n (begun n e)) (λ e2 is. is))
        λ e2 is.
          let (k, run) = execute-Runs cfg o n (begun n e) e2 is in
          (
            stop_running-eq (state_of (timed cfg o e2).1),
            record {
              k = k;
              last = e2;
              run = run;
              few = Runs-few cfg o run;
              counted = Runs-count run small;
              cpu = refl;
              pmem = refl;
              stopped = λ h. stop_running-running (state_of e2) h;
              ended = λ h. stop_running-others (state_of e2) h;
            },
          )

  -- What is said of the emulator behind `cpu_exec`.
  IsExecuted : ℕ → Emulator D R → Emulator D R → Type 0
  IsExecuted n e e' =
      (is_running (state_of e') ≡ false)
      × (has_ended (state_of e) ≡ true
          → (e'.machine ≡ e.machine) × (e'.g_nr_guest_inst ≡ e.g_nr_guest_inst))
      × (has_ended (state_of e) ≡ false → HasRun n e e')

  cpu_exec_ended :
      (n : ℕ) (e : Emulator D R)
      → has_ended (state_of e) ≡ true
      → cpu_exec cfg o n e ≡ ok (record e { g_print_step = ltb n max_inst_to_print })
  unfolding cpu_exec
  cpu_exec_ended n e ended = rw (ended, cpu_exec) refl

  cpu_exec_going :
      (n : ℕ) (e : Emulator D R)
      → has_ended (state_of e) ≡ false
      → cpu_exec cfg o n e ≡ run_timed cfg o n (record e { g_print_step = ltb n max_inst_to_print })
  unfolding cpu_exec
  cpu_exec_going n e going = rw (going, cpu_exec) refl

  -- A call of `cpu_exec`, where the counter has 64 bits, that comes back leaves a state that is not RUNNING. From END or ABORT it changes nothing
  -- of the machine and runs no instruction. From the other states it runs `k` instructions, at most `n`, one behind
  -- the other as the relation `Runs` says, from the emulator in which the state is RUNNING: the registers and
  -- physical memory are those behind the last one, the counter, a uint64_t, has grown by `k`, and the state is what the run
  -- left, or STOP where that was RUNNING.
  pub cpu_exec-HasStopped :
      (n : ℕ) (e : Emulator D R) {e' : Emulator D R}
      → e.g_nr_guest_inst < 2 ^ 64
      → cpu_exec cfg o n e ≡ ok e'
      → (is_running (state_of e') ≡ false)
        × (has_ended (state_of e) ≡ true
            → (e'.machine ≡ e.machine) × (e'.g_nr_guest_inst ≡ e.g_nr_guest_inst))
        × (has_ended (state_of e) ≡ false → HasRun n e e')
  unfolding HasStopped IsExecuted
  cpu_exec-HasStopped n e small is =
      let e1 : Emulator D R = record e { g_print_step = ltb n max_inst_to_print } in
      elim (Bool-cases (has_ended (state_of e))) [
        | inl ended ↦ subst (Ensures (IsExecuted n e)) (sym (cpu_exec_ended n e ended) ∙ is) (
          ended-not_running (state_of e) ended,
          (λ _. (refl, refl)),
          (λ going. absurd (true_not_false (sym ended ∙ going))),
        )
        | inr going ↦ subst (Ensures (IsExecuted n e)) (sym (cpu_exec_going n e going) ∙ is) (
            Ensures-map (HasStopped n e) (IsExecuted n e) (run_timed cfg o n e1)
              (λ e2 h. (h.0, (λ ended. absurd (true_not_false (sym ended ∙ going))), (λ _. h.1)))
              (run_timed-HasStopped n e small))
      ]
