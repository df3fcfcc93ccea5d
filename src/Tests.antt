-- ===== src/Tests.antt =====
-- Concrete runs of the modelled code, and each theorem at a concrete input.
mod Data
mod Memory
mod Device
mod Riscv
mod Klib
mod Watchpoint
mod Sdb
mod Run
mod Commands
mod Stdio
mod Peripherals
mod Startup
