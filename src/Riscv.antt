-- ===== src/Riscv.antt =====
-- The RISC-V guest: nemu/src/isa/riscv32 and the pattern matching of nemu/include/cpu/decode.h.
pub mod Pattern
pub mod Table
pub mod Alu
pub mod Machine
pub mod Registers
pub mod Operand
pub mod Exec
pub mod Init
