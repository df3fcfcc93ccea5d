-- ===== src/Device/Timer.antt =====
-- nemu/src/device/timer.c: the real-time clock at `base` in the arena, two words of one time.
pub mod Latch
use my_oscpu.Base.{
  ℕ, ◌+◌, ◌/◌, ◌%◌, ◌^◌, Bool, ◌&&◌, ◌||◌, not, ◌==◌, if◌then◌else◌, Result, ok, panic, ◌>>=◌, ◌>>◌,
  guard,
}
use my_oscpu.Memory.Bytes.{write_le}
use my_oscpu.Device.Map.{Io, Callback}
use my_oscpu.Device.Clock.{Clock, get_time}

-- `rtc_port_base[0] = (uint32_t)us` and `rtc_port_base[1] = us >> 32`.
unfoldable pub latch_time : (ℕ → ℕ) → ℕ → Io Clock → Io Clock
latch_time reading base io =
    let (us, c) = get_time reading io.dev in
    record {
      space = write_le 4 (write_le 4 io.space base (us % 2 ^ 32)) (base + 4) (us / 2 ^ 32);
      dev = c;
    }

unfoldable pub rtc_io_handler : (ℕ → ℕ) → ℕ → Callback Clock
unfolding latch_time
rtc_io_handler reading base offset len is_write io =
    guard (offset == 0 || offset == 4) (panic "assert(offset == 0 || offset == 4)")
    >> ok (if not is_write && (offset == 4) then latch_time reading base io else io)
