-- ===== src/Memory.antt =====
-- Physical memory: nemu/src/memory.
pub mod Bytes
pub mod Host
pub mod Range
pub mod Paddr
pub mod Access
pub mod Valid
pub mod Halts
