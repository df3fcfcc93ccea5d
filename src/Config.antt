-- ===== src/Config.antt =====
-- The build configuration that the preprocessor reads (nemu/Kconfig and its children): the options on
-- which the modelled code branches. The guest is 32 bits wide (CONFIG_ISA64 off), and physical
-- addresses too (PMEM64 off).
use my_oscpu.Base.{ℕ, ◌+◌, ◌^◌, ◌≤◌, Bool}

pub record Config : Type 0 where
  pub mbase : ℕ
  pub msize : ℕ
  pub reset_offset : ℕ
  pub rve : Bool
  pub rt_check : Bool
  pub device : Bool
  pub difftest : Bool
  pub ftrace : Bool
  pub has_vga : Bool
  pub has_keyboard : Bool
  pub itrace : Bool
  pub watchpoint : Bool

-- What the build guarantees: memory is not empty and ends within 32 bits.
pub record IsSound (cfg : Config) : Type 0 where
  pub fits : cfg.mbase + cfg.msize ≤ 2 ^ 32
  pub reset_inside : cfg.reset_offset + 20 ≤ cfg.msize
