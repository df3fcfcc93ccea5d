-- ===== src/Cpu/Run/Valid.antt =====
-- The run of the emulator keeps its state well formed (nemu/src/cpu/cpu-exec.c).
use my_oscpu.Base.{
  ℕ, zero, suc, ◌+◌, ◌%◌, ◌^◌, ◌<◌, ◌≡◌, refl, ap, subst, ◌∙◌, arith, Bool, Bool-cases, inl, inr,
  if◌then◌else◌, ltb, List, ok,
}
use my_oscpu.Config.{Config}
use my_oscpu.Memory.Bytes.{IsBytes}
use my_oscpu.Memory.Valid.{Ensures, Ensures-bind, Ensures-of_eq, Ensures-if}
use my_oscpu.Device.Map.{Io}
use my_oscpu.Device.Update.{Updates, device_update, time_of}
use my_oscpu.Device.Update.Space.{device_update-IsBytes, time_of-IsBytes}
use my_oscpu.Tracer.Ring.{RingBuffer}
use my_oscpu.Tracer.Ring.Recent
use my_oscpu.Tracer.Ring.Recent.{write_ring_buffer-IsValid}
use my_oscpu.Tracer.Inst.{inst_trace, disassemble}
use my_oscpu.Riscv.Alu.Bounds.{IsWord}
use my_oscpu.Riscv.Machine.{Machine, Cpu, RunState, running, quit}
use my_oscpu.Riscv.Exec.{Decode, isa_exec_once}
use my_oscpu.Riscv.Exec.Valid
use my_oscpu.Riscv.Exec.Step.{isa_exec_once-IsValid}
use my_oscpu.Sdb.Eval.Keeps.{Keeps}
use my_oscpu.Sdb.Watchpoint.{Pool}
use my_oscpu.Sdb.Watchpoint.Check.{check_wp}
use my_oscpu.Sdb.Watchpoint.Keeps.{check_wp-Keeps}
use my_oscpu.Cpu.Difftest.{difftest_step}
use my_oscpu.Cpu.Difftest.Keeps.{difftest_step-Keeps}
use my_oscpu.Cpu.Run.{
  max_inst_to_print, timed, Emulator, Outside, with_io, is_running, has_ended, state_of, set_state,
  run_once, step_devices, execute, run_timed, cpu_exec, exec_once, trace_and_difftest,
  step_reference, step_watchpoints,
}

module _ {D R : Type 0} where
  -- The machine is valid and its x0 is 0, the ring of instructions is within its array, and the count of
  -- instructions has 64 bits.
  pub record IsValid (e : Emulator D R) : Type 0 where
    pub machine : Valid.IsValid e.machine
    pub x0 : e.machine.cpu.gpr 0 ≡ 0
    pub ring : Recent.IsValid e.ring
    pub count : e.g_nr_guest_inst < 2 ^ 64

module _ {D R : Type 0} (cfg : Config) (o : Outside D R) where
  inst_trace-IsValid :
      (s : Decode) (r : RingBuffer)
      → Recent.IsValid r
      → Ensures (λ (r' : RingBuffer). Recent.IsValid r') (inst_trace cfg o.print_inst s r)
  unfolding inst_trace
  inst_trace-IsValid s r v =
      Ensures-if _ cfg.itrace _ _
        (Ensures-bind (λ (t : List ℕ). Unit {0}) _ (disassemble o.print_inst _ s.pc s.inst) _
          (Ensures-of_eq _ (disassemble o.print_inst _ s.pc s.inst) (λ t e. tt))
          λ t u. write_ring_buffer-IsValid _ r v)
        v

  exec_once-IsValid :
      (pc : ℕ) (e : Emulator D R)
      → IsWord pc
      → IsValid e
      → Ensures (λ (r : Decode × Emulator D R). IsValid r.1) (exec_once cfg o pc e)
  unfolding exec_once
  exec_once-IsValid pc e w v =
      Ensures-bind
        (λ (r : Decode × ℕ × Machine D). IsWord r.1 × Valid.IsValid r.2 × (r.2.cpu.gpr 0 ≡ 0)) _
        (isa_exec_once cfg pc e.machine) _
        (Ensures-of_eq _ (isa_exec_once cfg pc e.machine)
          (λ r is. isa_exec_once-IsValid cfg pc e.machine v.machine w is))
        λ r h.
          Ensures-bind _ _ (inst_trace cfg o.print_inst r.0 e.ring) _
            (inst_trace-IsValid r.0 e.ring v.ring)
            λ ring g. record {
              machine = record {
                words = h.1.words;
                csrs = h.1.csrs;
                memory = h.1.memory;
                pc = h.0;
              };
              x0 = h.2;
              ring = g;
              count = v.count;
            }

  -- An emulator whose machine has the same registers is as well formed.
  pub with_machine-IsValid :
      (e : Emulator D R) (m : Machine D)
      → IsValid e
      → Keeps e.machine.cpu m
      → IsValid (record e { machine = m })
  with_machine-IsValid e m v k = record {
    machine = k.valid;
    x0 = ap (λ (c : Cpu). c.gpr 0) k.same ∙ v.x0;
    ring = v.ring;
    count = v.count;
  }

  pub self-Keeps : (e : Emulator D R) → IsValid e → Keeps e.machine.cpu e.machine
  self-Keeps e v = record { valid = v.machine; same = refl }

  step_reference-IsValid :
      (pc dnpc : ℕ) (e : Emulator D R)
      → IsValid e
      → Ensures (λ (e' : Emulator D R). IsValid e') (step_reference cfg o pc dnpc e)
  unfolding step_reference
  step_reference-IsValid pc dnpc e v =
      Ensures-if (λ (e' : Emulator D R). IsValid e') cfg.difftest _ _
        (Ensures-bind (λ (r : Machine D × R). Keeps e.machine.cpu r.0) _
          (difftest_step cfg o.reference pc dnpc (e.machine, e.ref)) _
          (difftest_step-Keeps cfg o.reference e.machine.cpu pc dnpc (e.machine, e.ref)
            (self-Keeps e v))
          λ r k.
            let w = with_machine-IsValid e r.0 v k in
            record { machine = w.machine; x0 = w.x0; ring = w.ring; count = w.count })
        v

  step_watchpoints-IsValid :
      (e : Emulator D R)
      → IsValid e
      → Ensures (λ (e' : Emulator D R). IsValid e') (step_watchpoints cfg o e)
  unfolding step_watchpoints
  step_watchpoints-IsValid e v =
      Ensures-if (λ (e' : Emulator D R). IsValid e') cfg.watchpoint _ _
        (Ensures-bind (λ (r : Pool × Machine D). Keeps e.machine.cpu r.1) _
          (check_wp cfg o.libc e.pool e.machine) _
          (check_wp-Keeps cfg o.libc e.machine.cpu e.pool e.machine (self-Keeps e v))
          λ r k.
            let w = with_machine-IsValid e r.1 v k in
            record { machine = w.machine; x0 = w.x0; ring = w.ring; count = w.count })
        v

  pub run_once-IsValid :
      (e : Emulator D R)
      → IsValid e
      → Ensures (λ (e' : Emulator D R). IsValid e') (run_once cfg o e)
  unfolding run_once trace_and_difftest
  run_once-IsValid e v =
      Ensures-bind (λ (r : Decode × Emulator D R). IsValid r.1) (λ (e' : Emulator D R). IsValid e')
        (exec_once cfg o e.machine.cpu.pc e) _ (exec_once-IsValid e.machine.cpu.pc e v.machine.pc v)
        λ r w.
          let e1 : Emulator D R = record r.1 {
            g_nr_guest_inst = (r.1.g_nr_guest_inst + 1) % 2 ^ 64;
          } in
          Ensures-bind (λ (e' : Emulator D R). IsValid e') (λ (e' : Emulator D R). IsValid e')
            (step_reference cfg o r.0.pc r.1.machine.cpu.pc e1) _
            (step_reference-IsValid r.0.pc r.1.machine.cpu.pc e1
              (record { machine = w.machine; x0 = w.x0; ring = w.ring; count = omega arith }))
            λ e2 w2. step_watchpoints-IsValid e2 w2

  -- Another arena, devices' state and state of the run.
  pub with_io-IsValid :
      (e : Emulator D R) (io : Io D) (s : RunState) (u : Updates)
      → IsValid e
      → IsBytes io.space
      → IsValid (set_state s (with_io io (record e { updates = u })))
  with_io-IsValid e io s u v b = record {
    machine = record {
      words = v.machine.words;
      csrs = v.machine.csrs;
      memory = record {
        pmem = v.machine.memory.pmem;
        space = b;
        callbacks = v.machine.memory.callbacks;
      };
      pc = v.machine.pc;
    };
    x0 = v.x0;
    ring = v.ring;
    count = v.count;
  }

  pub step_devices-IsValid :
      (e : Emulator D R)
      → IsValid e
      → Ensures (λ (e' : Emulator D R). IsValid e') (step_devices cfg o e)
  unfolding step_devices
  step_devices-IsValid e v =
      Ensures-if (λ (e' : Emulator D R). IsValid e') cfg.device _ _
        (Ensures-bind (λ (r : Bool × Updates × Io D). IsBytes r.2.space) _
          (device_update cfg o.host (is_running (state_of e)) e.updates e.machine.memory.bus.io) _
          (device_update-IsBytes cfg o.host (is_running (state_of e)) e.updates
            e.machine.memory.bus.io v.machine.memory.space)
          λ r b. with_io-IsValid e r.2 (if r.0 then quit else state_of e) r.1 v b)
        v

  execute-IsValid :
      (n : ℕ) (e : Emulator D R)
      → IsValid e
      → Ensures (λ (e' : Emulator D R). IsValid e') (execute cfg o n e)
  unfolding execute
  execute-IsValid zero e v = v
  execute-IsValid (suc n) e v =
      Ensures-bind (λ (e' : Emulator D R). IsValid e') (λ (e' : Emulator D R). IsValid e')
        (run_once cfg o e) _ (run_once-IsValid e v)
        λ e1 v1. elim (Bool-cases (is_running (state_of e1))) [
          | inl goes ↦ rw goes (
              Ensures-bind (λ (e' : Emulator D R). IsValid e') (λ (e' : Emulator D R). IsValid e')
                (step_devices cfg o e1) _ (step_devices-IsValid e1 v1)
                λ e2 v2. execute-IsValid n e2 v2)
          | inr broke ↦ rw broke v1
        ]

  timed-IsValid :
      (e : Emulator D R) (s : RunState) (g : ℕ)
      → IsValid e
      → IsValid (set_state s (record (timed cfg o e).1 { g_timer = g }))
  timed-IsValid e s g v =
      let w =
        with_io-IsValid e (time_of cfg o.host e.machine.memory.bus.io).1 s e.updates v
          (time_of-IsBytes cfg o.host e.machine.memory.bus.io v.machine.memory.space) in
      record { machine = w.machine; x0 = w.x0; ring = w.ring; count = w.count }

  run_timed-IsValid :
      (n : ℕ) (e : Emulator D R)
      → IsValid e
      → Ensures (λ (e' : Emulator D R). IsValid e') (run_timed cfg o n e)
  unfolding run_timed
  run_timed-IsValid n e v =
      let e1 : Emulator D R = (timed cfg o (set_state running e)).1 in
      Ensures-bind (λ (e' : Emulator D R). IsValid e') (λ (e' : Emulator D R). IsValid e')
        (execute cfg o n e1) _
        (execute-IsValid n e1 (
          with_io-IsValid e (time_of cfg o.host e.machine.memory.bus.io).1 running e.updates v
            (time_of-IsBytes cfg o.host e.machine.memory.bus.io v.machine.memory.space)))
        λ e2 v2. timed-IsValid e2 _ _ v2

  with_step-IsValid :
      (e : Emulator D R) (b : Bool) → IsValid e → IsValid (record e { g_print_step = b })
  with_step-IsValid e b v = record {
    machine = v.machine;
    x0 = v.x0;
    ring = v.ring;
    count = v.count;
  }

  pub cpu_exec-Ensures :
      (n : ℕ) (e : Emulator D R)
      → IsValid e
      → Ensures (λ (e' : Emulator D R). IsValid e') (cpu_exec cfg o n e)
  unfolding cpu_exec
  cpu_exec-Ensures n e v =
      let e1 : Emulator D R = record e { g_print_step = ltb n max_inst_to_print } in
      let v1 = with_step-IsValid e (ltb n max_inst_to_print) v in
      elim (Bool-cases (has_ended (state_of e))) [
        | inl ended ↦ rw (ended, Ensures) v1
        | inr going ↦ rw (going, Ensures) (run_timed-IsValid n e1 v1)
      ]

  -- Whatever program runs, and whatever the host and the reference do: `cpu_exec` on a well-formed emulator that
  -- comes back leaves it well formed, with every register, CSR, memory and arena cell within its width, x0 at 0
  -- and the ring of instructions within its array. The devices' callbacks are taken to write bytes only.
  pub cpu_exec-IsValid :
      (n : ℕ) (e : Emulator D R) {e' : Emulator D R}
      → IsValid e
      → cpu_exec cfg o n e ≡ ok e'
      → IsValid e'
  cpu_exec-IsValid n e v is =
      subst (Ensures (λ (x : Emulator D R). IsValid x)) is (cpu_exec-Ensures n e v)
