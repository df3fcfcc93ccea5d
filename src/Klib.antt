-- ===== src/Klib.antt =====
-- The C library of the runtime (abstract-machine/klib/src).
pub mod Str
pub mod Stdlib
pub mod Stdio
