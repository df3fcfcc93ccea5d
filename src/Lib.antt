-- ===== src/Lib.antt =====
-- A verification library for NEMU, the emulator of this repository (nemu/), in its riscv32 build with the
-- interpreter engine.
--
-- Parts of the program, and how they work together:
--   memory (nemu/src/memory): physical memory is an array; an address is in it, or it is sent to the devices.
--     `vaddr_*` pass to `paddr_*`.
--   devices (nemu/src/device): a table of memory-mapped regions, each with a place in one arena and a
--     callback that is called around each access; the devices are such callbacks and their state.
--   riscv32 (nemu/src/isa/riscv32, nemu/include/cpu): an instruction is fetched from memory, matched against a
--     table of patterns, its operands decoded and its body run on registers, CSRs and memory.
--   tracer (nemu/src/utils/tracer.c): the call trace that jumps write, and the ring of recent instructions.
--   differential test (nemu/src/cpu/difftest): each instruction is run on a reference too, and compared.
--   loop (nemu/src/cpu/cpu-exec.c): instruction, tracer, differential test, watchpoints and devices, until the
--     state of the run changes.
--   drivers (abstract-machine/am/src/platform/nemu): what the guest's programs do to read and write the devices.
--   klib (abstract-machine/klib): the C library of the programs that run on the emulator.
--   sdb (nemu/src/monitor/sdb): the debugger's commands, its expressions over registers and memory, and
--     watchpoints, whose expressions are checked for a new value.
--
-- Files:
--   Base: library names, Boolean tests, lists over the native numbers, 32-bit words, outcomes. A C function that may
--     stop the emulator (panic, a failing assert) or has no defined behaviour (an access outside an array, a division
--     that overflows) gives a `Result`; the state it changes is an argument and a part of the result.
--   Config: the build options that the code tests by the preprocessor.
--   Memory.Bytes, .Host: nemu/include/memory/host.h, little-endian loads and stores of an array of bytes. Memory.Range:
--     nemu/include/memory/paddr.h. Memory.Paddr: nemu/src/memory/paddr.c and vaddr.c. Memory.Access, .Valid: proofs.
--   Device.Map: nemu/src/device/io/map.c, nemu/include/device/map.h, and the two bus functions of mmio.c. Device.Mmio:
--     `add_mmio_map`. Device.Table: proofs.
--   Device.Access: an access inside a region. Device.Port: nemu/src/device/io/port-io.c. Device.Clock:
--     nemu/src/utils/timer.c. Device.Keyboard, .Timer, .Serial, .Audio, .Sdcard, .Alarm, .Vga: the files of these names in
--     nemu/src/device, each callback over the state of its device. Device.Update: `device_update` of
--     nemu/src/device/device.c.
--   Device.Init: `init_device` of nemu/src/device/device.c and the initialization of each device, with memory-mapped
--     regions; the addresses are Kconfig's. Device.Init.Regions: proofs.
--   Tracer.Functions: `find_func` and the call trace of nemu/src/utils/tracer.c, without the text it prints. Tracer.Ring,
--     .Inst: its ring of recent instructions, and `inst_trace` with nemu/src/utils/disasm.cc.
--   Riscv.Pattern: `pattern_decode` and `INSTPAT` of nemu/include/cpu/decode.h, Riscv.Table: the table of
--     nemu/src/isa/riscv32/inst.c, Riscv.Alu: C's arithmetic in its bodies, Riscv.Machine: registers, CSRs and the state
--     of the run, Riscv.Registers: nemu/src/isa/riscv32/reg.c, Riscv.Operand: `decode_operand`, Riscv.Exec: the bodies
--     of the rows, `decode_exec` and `isa_exec_once`. Riscv.Init: nemu/src/isa/riscv32/init.c. The modules below them are
--     proofs.
--   Cpu.Difftest: nemu/src/cpu/difftest/dut.c and nemu/src/isa/riscv32/difftest/dut.c. Cpu.Run: nemu/src/cpu/cpu-exec.c
--     and nemu/src/utils/state.c.
--   Sdb.Token, .Eval, .Expr: nemu/src/monitor/sdb/expr.c, with Sdb.Eval.Grammar, a grammar with values, as a reference.
--     Sdb.Watchpoint and Sdb.Watchpoint.Check: nemu/src/monitor/sdb/watchpoint.c, a pointer into the pool as an index.
--     Sdb.Commands: nemu/src/monitor/sdb/sdb.c.
--   Klib.Str: abstract-machine/klib/src/string.c; Klib.Stdlib: abstract-machine/klib/src/stdlib.c, where `long` and
--     pointers have 32 bits; Klib.Stdio: abstract-machine/klib/src/stdio.c. A string is found by the address
--     of its first byte in a memory of bytes.
--   Am.Ioe: abstract-machine/am/src/platform/nemu, over the emulator's loads and stores. Am.Uptime: proofs.
--   Tests: concrete runs, and the theorems at concrete inputs.
--
-- Choices. A word is a natural number below 2 ^ 32, and wrap-around is written out. `D` is the state of the devices,
-- and a callback an arbitrary function on it and the arena, which may fail. The C library's regexec, atoi and strtol
-- are parameters (Sdb.Token.Libc), and so are the host's clock, screen and events (Device.Update.Host), the reference of
-- the differential test (Cpu.Difftest.Reference), the SD card's image file (Device.Sdcard.CardFile) and the text that LLVM
-- prints of an instruction. The loop of the emulator is recursion on the number of instructions that it is given.
-- `eval` takes fuel for its recursion, and `expr` gives it one more than the number of tokens, of which every call's
-- segment has fewer than its caller's; `make_token` gets one more than the length of the text. The walks of the
-- watchpoints get one more than NR_WP. `strlen` and `atoi` take fuel for their loops as an argument;
-- `vsnprintf` has one more step than its format is long, and `itoa` 33, one more than an int has digits in base 2.
--
-- Not modelled: the other instruction sets, the host side (SDL, files, signals, the debugger's line editor), loading the
-- reference's library, the processor (npc), the rest of the runtime's platforms (abstract-machine/am), and vendored tools.
pub mod Base
pub mod Config
pub mod Memory
pub mod Device
pub mod Tracer
pub mod Riscv
pub mod Cpu
pub mod Sdb
pub mod Klib
pub mod Am
mod Tests
