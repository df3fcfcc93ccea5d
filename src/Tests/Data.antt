-- ===== src/Tests/Data.antt =====
-- A small build and a small machine, on which the examples run: four kilobytes of physical memory, one
-- device region of eight bytes without a callback.
use my_oscpu.Base.{ℕ, ◌^◌, ◌<◌, arith, true, false, [], ◌∷◌, none, if◌then◌else◌, ◌==◌}
use my_oscpu.Config.{Config, IsSound}
use my_oscpu.Device.Map.{IoMap, Bus}
use my_oscpu.Memory.Bytes.{Bytes, IsBytes}
use my_oscpu.Memory.Paddr.{Memory}
use my_oscpu.Memory.Valid
use my_oscpu.Riscv.Machine.{Machine, stop}
use my_oscpu.Riscv.Exec.Valid.{IsValid}

abbrev pub small : Config
small = record {
  mbase = 2 ^ 31;
  msize = 4096;
  reset_offset = 0;
  rve = false;
  rt_check = true;
  device = true;
  difftest = false;
  ftrace = false;
  has_vga = true;
  has_keyboard = true;
  itrace = true;
  watchpoint = true;
}

pub small-IsSound : IsSound small
small-IsSound = record { fits = omega arith; reset_inside = omega arith }

abbrev pub serial : IoMap ℕ
serial = record { name = "serial"; low = 2684355576; high = 2684355583; space = 0; callback = none }

abbrev pub bus : Bus ℕ
bus = record {
  io = record { space = λ i. 0; dev = 0 };
  maps = serial ∷ [];
  difftest = record { is_skip_ref = false; skip_dut_nr_inst = 0 };
}

-- `add x3, x1, x2` at the start of memory.
abbrev pub program : Bytes
program i = if i == 0 then 179 else if i == 1 then 129 else if i == 2 then 32 else 0

abbrev pub memory : Memory ℕ
memory = record { pmem = program; bus = bus }

-- x1 is 40 and x2 is 2.
abbrev pub gprs : ℕ → ℕ
gprs i = if i == 1 then 40 else if i == 2 then 2 else 0

abbrev pub machine : Machine ℕ
machine = record {
  cpu = record {
    gpr = gprs;
    pc = 2 ^ 31;
    csr = record { mstatus_ = 6144; mtvec_ = 0; mepc_ = 0; mcause_ = 0 };
  };
  memory = memory;
  nemu = record { state = stop; halt_pc = 0; halt_ret = 0 };
  trace = record { symbols = []; depth = 1; printed = [] };
}

program-IsBytes : IsBytes program
program-IsBytes i = ground arith

pub memory-IsValid : Valid.IsValid memory
memory-IsValid = record { pmem = program-IsBytes; space = λ i. omega arith; callbacks = (tt, tt) }

gprs-lt : (i : ℕ) → gprs i < 2 ^ 32
gprs-lt i = ground arith

pub machine-IsValid : IsValid machine
machine-IsValid = record {
  words = gprs-lt;
  csrs = record {
    mstatus = omega arith;
    mtvec = omega arith;
    mepc = omega arith;
    mcause = omega arith;
  };
  memory = memory-IsValid;
  pc = omega arith;
}
