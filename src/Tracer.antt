-- ===== src/Tracer.antt =====
-- The tracers of nemu/src/utils/tracer.c.
pub mod Functions
pub mod Ring
pub mod Inst
