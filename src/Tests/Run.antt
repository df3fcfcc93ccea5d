-- ===== src/Tests/Run.antt =====
-- A run of the small machine, the differential test, and the built-in image.
use my_oscpu.Base.{ℕ, ◌+◌, ◌^◌, ◌≤◌, ◌⊎◌, ◌≡◌, refl, arith, true, false, [], none, ok, err, codes}
use my_oscpu.Memory.Bytes.{read_le}
use my_oscpu.Memory.Host.{host_read}
use my_oscpu.Memory.Paddr.{paddr_read, vaddr_ifetch}
use my_oscpu.Memory.Range.{in_pmem, guest_to_host}
use my_oscpu.Device.Clock.{get_time}
use my_oscpu.Device.Update.{Host, device_update, time_of}
use my_oscpu.Tracer.Inst.{inst_trace, disassemble, skip_tabs, hex_text, byte_texts, inst_head}
use my_oscpu.Riscv.Machine.{Machine, Cpu, get_reg, set_reg}
use my_oscpu.Riscv.Operand.{decode_operand}
use my_oscpu.Riscv.Pattern.{pattern_decode, instpat_test}
use my_oscpu.Riscv.Table.{rows, find_row}
use my_oscpu.Riscv.Exec.{isa_exec_once, decode_exec, inst_fetch, exec_instr}
use my_oscpu.Sdb.Watchpoint.Check.{check_wp}
use my_oscpu.Cpu.Difftest.{Reference, difftest_step, isa_difftest_checkregs}
use my_oscpu.Cpu.Run.{
  Emulator, Outside, cpu_exec, execute, run_once, exec_once, trace_and_difftest, step_reference,
  step_watchpoints, step_devices, run_timed, state_of, is_running,
}
use my_oscpu.Cpu.Run.Valid.{IsValid, cpu_exec-IsValid}
use my_oscpu.Cpu.Run.States.{HasRun, cpu_exec-HasStopped}
use my_oscpu.Cpu.Run.Steps.{Runs, execute_iff-Runs}
use my_oscpu.Cpu.Difftest.Checked.{
  Agrees, isa_difftest_checkregs_iff-Agrees, difftest_step-IsChecked, IsCompared,
}
use my_oscpu.Riscv.Init.{init_isa}
use my_oscpu.Riscv.Init.Image.{init_isa-IsValid}
use my_oscpu.Tests.Data.{small, small-IsSound, machine, machine-IsValid}

abbrev cpu_reference : Reference Cpu
cpu_reference = record { exec = λ r. r; to_dut = λ r. r; to_ref = λ c r. c }

abbrev pub host : Host ℕ
host = record {
  keyboard = λ d. record { keymap = λ i. 0; key_queue = λ i. 0; key_f = 0; key_r = 0 };
  set_keyboard = λ k d. d;
  clock = λ d. record { boot_time = 1000; calls = d };
  set_clock = λ c d. c.calls;
  reading = λ i. 1000 + i;
  update_screen = λ b d. d;
  vgactl_port_base = 4096;
  polled = λ i. [];
}

abbrev pub outside : Outside ℕ Cpu
outside = record {
  reference = cpu_reference;
  host = host;
  print_inst = λ pc inst. codes "add gp, ra, sp";
  libc = record { regexec = λ p t. none; atoi = λ t. 0; strtol_hex = λ t. 0 };
}

abbrev pub emulator : Emulator ℕ Cpu
emulator = record {
  machine = machine;
  ref = machine.cpu;
  pool = record {
    next = λ i. none;
    value = λ i. 0;
    expression = λ i. none;
    head = none;
    free_ = none;
  };
  ring = record { buffer = λ i. []; head = 0; size = 0 };
  updates = record { last = 0; polls = 0 };
  g_nr_guest_inst = 0;
  g_timer = 0;
  g_print_step = false;
}

pub emulator-IsValid : IsValid emulator
emulator-IsValid = record {
  machine = machine-IsValid;
  x0 = refl;
  ring = record { head = omega arith; size = omega arith };
  count = omega arith;
}

abbrev after_run : Emulator ℕ Cpu
after_run = elim (cpu_exec small outside 1 emulator) [ ok e ↦ e | err f ↦ emulator ]

run_succeeds : cpu_exec small outside 1 emulator ≡ ok after_run
unfolding cpu_exec execute run_once exec_once trace_and_difftest step_reference step_watchpoints
    step_devices run_timed isa_exec_once inst_fetch vaddr_ifetch paddr_read in_pmem guest_to_host
    host_read decode_exec find_row rows pattern_decode instpat_test read_le decode_operand get_reg
    exec_instr set_reg check_wp device_update time_of get_time inst_trace disassemble skip_tabs
    hex_text byte_texts inst_head
run_succeeds = refl

cpu_exec-IsValid_example : IsValid after_run
cpu_exec-IsValid_example = cpu_exec-IsValid small outside 1 emulator emulator-IsValid run_succeeds

cpu_exec-HasStopped_example :
    (is_running (state_of after_run) ≡ false) × HasRun small outside 1 emulator after_run
cpu_exec-HasStopped_example =
    let h = cpu_exec-HasStopped small outside 1 emulator (omega arith) run_succeeds in
    (h.0, h.2 refl)

-- The emulator behind the instruction and the loop.
abbrev looped : Emulator ℕ Cpu
looped = elim (execute small outside 1 emulator) [ ok e ↦ e | err f ↦ emulator ]

loop_returns : execute small outside 1 emulator ≡ ok looped
unfolding execute run_once exec_once trace_and_difftest step_reference step_watchpoints step_devices
    isa_exec_once inst_fetch vaddr_ifetch paddr_read in_pmem guest_to_host host_read decode_exec
    find_row rows pattern_decode instpat_test read_le decode_operand get_reg exec_instr set_reg
    check_wp device_update time_of get_time inst_trace disassemble skip_tabs hex_text byte_texts
    inst_head
loop_returns = refl

execute_iff-Runs_example :
    (k : ℕ) × Runs small outside 1 k emulator looped
    × (k ≤ 1)
    × ((k ≡ 1) ⊎ (is_running (state_of looped) ≡ false))
execute_iff-Runs_example = (execute_iff-Runs small outside 1 emulator looped).0 loop_returns

self-Agrees : (c : Cpu) → Agrees small c c
self-Agrees c = record {
  gprs = λ i l. refl;
  mstatus = refl;
  mtvec = refl;
  mepc = refl;
  mcause = refl;
  pc = refl;
}

isa_difftest_checkregs_iff-Agrees_example :
    isa_difftest_checkregs small machine.cpu machine.cpu ≡ true
isa_difftest_checkregs_iff-Agrees_example =
    (isa_difftest_checkregs_iff-Agrees small machine.cpu machine.cpu).1 (self-Agrees machine.cpu)

-- The reference is at another instruction.
abbrev ahead : Cpu
ahead = record machine.cpu { pc = 2 ^ 31 + 4 }

difftest_step-IsChecked_example :
    (s' : Machine ℕ × Cpu) × (difftest_step small cpu_reference
        (2 ^ 31)
        (2 ^ 31 + 4)
        (machine, ahead)
      ≡ ok s')
    × IsCompared small cpu_reference (2 ^ 31) machine ahead s'
difftest_step-IsChecked_example =
    (difftest_step-IsChecked small cpu_reference (2 ^ 31) (2 ^ 31 + 4) (machine, ahead)).0 refl refl

init_isa-IsValid_example : (m' : Machine ℕ) × (init_isa small machine ≡ ok m')
init_isa-IsValid_example =
    let started = init_isa-IsValid small machine small-IsSound machine-IsValid in
    (started.0, started.1)
