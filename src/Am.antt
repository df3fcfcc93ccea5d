-- ===== src/Am.antt =====
-- The runtime of the guest's programs on the emulator: abstract-machine/am.
pub mod Ioe
pub mod Uptime
