-- ===== src/Cpu/Run.antt =====
-- The loop of the emulator: nemu/src/cpu/cpu-exec.c and `is_exit_status_bad` of nemu/src/utils/state.c. What is
-- printed is left out.
pub mod Steps
pub mod States
pub mod Valid
use my_oscpu.Base.{
  ℕ, zero, suc, ◌+◌, ◌-◌, ◌%◌, ◌^◌, Bool, true, false, ◌&&◌, ◌||◌, not, ◌==◌, ltb, if◌then◌else◌,
  List, Result, ok, err, ◌>>=◌, ◌>>◌, guard,
}
use my_oscpu.Config.{Config}
use my_oscpu.Device.Map.{Io}
use my_oscpu.Device.Update.{Host, Updates, time_of, device_update}
use my_oscpu.Tracer.Ring.{RingBuffer}
use my_oscpu.Tracer.Inst.{inst_trace}
use my_oscpu.Riscv.Machine.{
  Machine, NemuState, RunState, running, stop, end, abort, quit, with_cpu, with_bus,
}
use my_oscpu.Riscv.Exec.{Decode, isa_exec_once}
use my_oscpu.Sdb.Token.{Libc}
use my_oscpu.Sdb.Watchpoint.{Pool}
use my_oscpu.Sdb.Watchpoint.Check.{check_wp}
use my_oscpu.Cpu.Difftest.{Reference, difftest_step}

abbrev pub max_inst_to_print : ℕ
max_inst_to_print = 10

-- All that the run of the emulator changes.
pub record Emulator (D R : Type 0) : Type 0 where
  pub machine : Machine D
  pub ref : R
  pub pool : Pool
  pub ring : RingBuffer
  pub updates : Updates
  pub g_nr_guest_inst : ℕ
  pub g_timer : ℕ
  pub g_print_step : Bool

-- What the run takes from outside: the reference, the host, the text that LLVM prints of an instruction, and
-- the C library.
pub record Outside (D R : Type 0) : Type 0 where
  pub reference : Reference R
  pub host : Host D
  pub print_inst : ℕ → ℕ → List ℕ
  pub libc : Libc

abbrev pub is_running : RunState → Bool
is_running running = true
is_running stop = false
is_running end = false
is_running abort = false
is_running quit = false

-- NEMU_END and NEMU_ABORT.
abbrev pub has_ended : RunState → Bool
has_ended end = true
has_ended abort = true
has_ended running = false
has_ended stop = false
has_ended quit = false

abbrev is_end : RunState → Bool
is_end end = true
is_end abort = false
is_end running = false
is_end stop = false
is_end quit = false

abbrev is_quit : RunState → Bool
is_quit quit = true
is_quit end = false
is_quit abort = false
is_quit running = false
is_quit stop = false

unfoldable pub is_exit_status_bad : NemuState → Bool
is_exit_status_bad s = not ((is_end s.state && (s.halt_ret == 0)) || is_quit s.state)

module _ {D R : Type 0} where
  abbrev pub state_of : Emulator D R → RunState
  state_of e = e.machine.nemu.state

  abbrev pub with_machine : Machine D → Emulator D R → Emulator D R
  with_machine m e = record e { machine = m }

  abbrev pub set_state : RunState → Emulator D R → Emulator D R
  set_state s e = with_machine (record e.machine { nemu = record e.machine.nemu { state = s } }) e

  abbrev pub with_io : Io D → Emulator D R → Emulator D R
  with_io io e = with_machine (with_bus e.machine (record e.machine.memory.bus { io = io })) e

module _ {D R : Type 0} (cfg : Config) (o : Outside D R) where
  unfoldable pub exec_once : ℕ → Emulator D R → Result (Decode × Emulator D R)
  exec_once pc e = do
    (s, dnpc, m) ← isa_exec_once cfg pc e.machine
    ring ← inst_trace cfg o.print_inst s e.ring
    ok (s, record e { machine = with_cpu m (record m.cpu { pc = dnpc }); ring = ring })

  -- `IFDEF(CONFIG_DIFFTEST, difftest_step(_this->pc, dnpc))`.
  unfoldable pub step_reference : ℕ → ℕ → Emulator D R → Result (Emulator D R)
  step_reference pc dnpc e =
      if cfg.difftest
      then (difftest_step cfg o.reference pc dnpc (e.machine, e.ref) >>= λ r.
          ok (record e { machine = r.0; ref = r.1 }))
      else ok e

  -- `IFDEF(CONFIG_WATCHPOINT, check_wp())`.
  unfoldable pub step_watchpoints : Emulator D R → Result (Emulator D R)
  step_watchpoints e =
      if cfg.watchpoint
      then (check_wp cfg o.libc e.pool e.machine >>= λ r.
          ok (record e { pool = r.0; machine = r.1 }))
      else ok e

  unfoldable pub trace_and_difftest : ℕ → ℕ → Emulator D R → Result (Emulator D R)
  unfolding step_reference step_watchpoints
  trace_and_difftest pc dnpc e = step_reference pc dnpc e >>= step_watchpoints

  -- The body of the loop up to the test of the state.
  unfoldable pub run_once : Emulator D R → Result (Emulator D R)
  unfolding exec_once trace_and_difftest
  run_once e = exec_once e.machine.cpu.pc e >>= λ r.
      trace_and_difftest r.0.pc r.1.machine.cpu.pc
        (record r.1 { g_nr_guest_inst = (r.1.g_nr_guest_inst + 1) % 2 ^ 64 })

  -- `IFDEF(CONFIG_DEVICE, device_update())`.
  unfoldable pub step_devices : Emulator D R → Result (Emulator D R)
  step_devices e =
      if cfg.device
      then (device_update cfg o.host (is_running (state_of e)) e.updates e.machine.memory.bus.io
          >>= λ r. ok (
              set_state (if r.0 then quit else state_of e)
                (with_io r.2 (record e { updates = r.1 }))))
      else ok e

  unfoldable pub execute : ℕ → Emulator D R → Result (Emulator D R)
  unfolding run_once step_devices
  execute zero e = ok e
  execute (suc n) e = run_once e >>= λ e'. elim (is_running (state_of e')) [
    | false ↦ ok e'
    | true ↦ step_devices e' >>= execute n
  ]

  -- `get_time` and the emulator with the clock read.
  abbrev pub timed : Emulator D R → ℕ × Emulator D R
  timed e = let (now, io) = time_of cfg o.host e.machine.memory.bus.io in (now, with_io io e)

  abbrev pub stop_running : RunState → RunState
  stop_running running = stop
  stop_running stop = stop
  stop_running end = end
  stop_running abort = abort
  stop_running quit = quit

  unfoldable pub run_timed : ℕ → Emulator D R → Result (Emulator D R)
  unfolding execute
  run_timed n e =
      let (timer_start, e1) = timed (set_state running e) in
      execute n e1 >>= λ e2.
      (let (timer_end, e3) = timed e2 in
        ok (
          set_state (stop_running (state_of e3))
            (record e3 { g_timer = (e3.g_timer + (timer_end + 2 ^ 64 - timer_start)) % 2 ^ 64 })))

  unfoldable pub cpu_exec : ℕ → Emulator D R → Result (Emulator D R)
  unfolding run_timed
  cpu_exec n e =
      let e1 = record e { g_print_step = ltb n max_inst_to_print } in
      elim (has_ended (state_of e)) [ true ↦ ok e1 | false ↦ run_timed n e1 ]
