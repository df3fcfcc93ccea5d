-- ===== src/Tests/Riscv.antt =====
-- A step of the small machine, and rows of the instruction table.
use my_oscpu.Base.{ℕ, ◌+◌, ◌^◌, ◌≡◌, refl, arith, some, ok, err, codes}
use my_oscpu.Riscv.Pattern.{pattern_decode, decode_loop, decode_char, instpat_test}
use my_oscpu.Riscv.Pattern.Sound.{fits, symbols, instpat_test-pattern_decode}
use my_oscpu.Riscv.Table.{Row, rows, find_row, add, type_r}
use my_oscpu.Riscv.Table.Exclusive.{find_row_unique}
use my_oscpu.Riscv.Machine.{Machine, get_reg, set_reg}
use my_oscpu.Riscv.Exec.{Decode, isa_exec_once, decode_exec, inst_fetch, exec_instr}
use my_oscpu.Riscv.Operand.{decode_operand}
use my_oscpu.Memory.Bytes.{read_le}
use my_oscpu.Memory.Host.{host_read}
use my_oscpu.Memory.Paddr.{paddr_read, vaddr_ifetch}
use my_oscpu.Memory.Range.{in_pmem, guest_to_host}
use my_oscpu.Riscv.Exec.Valid.{IsValid}
use my_oscpu.Riscv.Exec.Step.{isa_exec_once-IsValid}
use my_oscpu.Tests.Data.{small, machine, machine-IsValid}

-- The pattern of `jalr`.
instpat_test-pattern_decode_example :
    instpat_test 32871 (record { key = 103; mask = 28799; shift = 0 })
    ≡ fits (symbols (codes "??????? ????? ????? 000 ????? 11001 11")) 32871
unfolding pattern_decode decode_loop decode_char
instpat_test-pattern_decode_example =
    instpat_test-pattern_decode (codes "??????? ????? ????? 000 ????? 11001 11")
      {d = record { key = 103; mask = 28799; shift = 0 }} 32871 refl

abbrev add_row : Row
add_row = record { pattern_ = "0000000 ????? ????? 000 ????? 01100 11"; instr = add; type = type_r }

find_row_unique_example : find_row rows 2130355 ≡ ok (some add_row)
unfolding rows
find_row_unique_example = find_row_unique 27 2130355 add_row refl (omega arith) refl

-- The machine behind `add x3, x1, x2`.
abbrev after : Machine ℕ
after = elim (isa_exec_once small (2 ^ 31) machine) [ ok next ↦ next.2 | err f ↦ machine ]

abbrev fetched : Decode
fetched = record { pc = 2 ^ 31; snpc = 2 ^ 31 + 4; inst = 2130355 }

step_succeeds : isa_exec_once small (2 ^ 31) machine ≡ ok (fetched, 2 ^ 31 + 4, after)
unfolding isa_exec_once inst_fetch vaddr_ifetch paddr_read in_pmem guest_to_host host_read
    decode_exec find_row rows pattern_decode instpat_test read_le decode_operand get_reg exec_instr
    set_reg
step_succeeds = refl

isa_exec_once-IsValid_example : IsValid after × (after.cpu.gpr 0 ≡ 0)
isa_exec_once-IsValid_example =
    let (w, v, z) =
      isa_exec_once-IsValid small (2 ^ 31) machine machine-IsValid (omega arith) step_succeeds in
    (v, z)
