-- ===== src/Cpu.antt =====
-- The loop of the emulator and its differential test: nemu/src/cpu.
pub mod Difftest
pub mod Run
