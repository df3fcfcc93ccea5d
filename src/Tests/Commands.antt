-- ===== src/Tests/Commands.antt =====
-- Lines typed into the debugger of the small machine.
use my_oscpu.Base.{
  ℕ, suc, ◌+◌, ◌≡◌, refl, false, ◌==◌, if◌then◌else◌, Option, none, some, List, [], ◌∷◌, codes, ok,
  err,
}
use my_oscpu.Memory.Bytes.{read_le}
use my_oscpu.Memory.Host.{host_read}
use my_oscpu.Memory.Paddr.{paddr_read, vaddr_ifetch}
use my_oscpu.Memory.Range.{in_pmem, guest_to_host}
use my_oscpu.Device.Clock.{get_time}
use my_oscpu.Device.Update.{device_update, time_of}
use my_oscpu.Tracer.Inst.{inst_trace, disassemble, skip_tabs, hex_text, byte_texts, inst_head}
use my_oscpu.Riscv.Machine.{Cpu, get_reg, set_reg}
use my_oscpu.Riscv.Operand.{decode_operand}
use my_oscpu.Riscv.Pattern.{pattern_decode, instpat_test}
use my_oscpu.Riscv.Table.{rows, find_row}
use my_oscpu.Riscv.Exec.{isa_exec_once, decode_exec, inst_fetch, exec_instr}
use my_oscpu.Sdb.Watchpoint.Check.{check_wp}
use my_oscpu.Cpu.Run.{
  Emulator, cpu_exec, execute, run_once, exec_once, trace_and_difftest, step_reference,
  step_watchpoints, step_devices, run_timed,
}
use my_oscpu.Cpu.Run.Valid.{IsValid}
use my_oscpu.Sdb.Commands.{
  LineLibc, find_command, cmd_table, run_command, run_si, run_line, read_lines, sdb_mainloop,
}
use my_oscpu.Sdb.Commands.Valid.{sdb_mainloop-IsValid}
use my_oscpu.Tests.Data.{small}
use my_oscpu.Tests.Run.{outside, emulator, emulator-IsValid}

-- The characters in front of the next space, and the spaces at the start.
abbrev token_length : List ℕ → ℕ
token_length [] = 0
token_length (c ∷ s) = if c == b' ' then 0 else suc (token_length s)

abbrev first_token : ℕ → List ℕ → Option (ℕ × ℕ)
first_token start [] = none
first_token start (c ∷ s) =
    if c == b' ' then first_token (start + 1) s else some (start, suc (token_length s))

abbrev line_libc : LineLibc
line_libc = record { strtok = first_token 0; strtoul = λ s. 1; strtol = λ s. 0 }

abbrev typed : List (List ℕ)
typed = codes "nothing" ∷ codes " si" ∷ codes "q" ∷ codes "c" ∷ []

abbrev left : Emulator ℕ Cpu
left = elim (sdb_mainloop small outside line_libc false typed emulator) [
  | ok e ↦ e
  | err f ↦ emulator
]

loop_succeeds : sdb_mainloop small outside line_libc false typed emulator ≡ ok left
unfolding sdb_mainloop read_lines run_line run_command run_si find_command cmd_table cpu_exec
    execute run_once exec_once trace_and_difftest step_reference step_watchpoints step_devices
    run_timed isa_exec_once inst_fetch vaddr_ifetch paddr_read in_pmem guest_to_host host_read
    decode_exec find_row rows pattern_decode instpat_test read_le decode_operand get_reg exec_instr
    set_reg check_wp device_update time_of get_time inst_trace disassemble skip_tabs hex_text
    byte_texts inst_head
loop_succeeds = refl

sdb_mainloop-IsValid_example : IsValid left
sdb_mainloop-IsValid_example =
    sdb_mainloop-IsValid small outside line_libc false typed emulator emulator-IsValid loop_succeeds
