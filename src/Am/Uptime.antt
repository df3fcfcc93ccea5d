-- ===== src/Am/Uptime.antt =====
-- The guest's `__am_timer_uptime` (abstract-machine/am/src/platform/nemu/ioe/timer.c) on the emulator's real-time clock
-- (nemu/src/device/timer.c).
use my_oscpu.Base.{
  ℕ, ◌+◌, ◌*◌, ◌/◌, ◌%◌, ◌^◌, ◌≤◌, ◌≡◌, refl, ap, ◌∙◌, arith, Bool, true, false, some, ok, ◌>>=◌,
  if◌then◌else◌,
}
use my_oscpu.Config.{Config}
use my_oscpu.Memory.Range.{in_pmem}
use my_oscpu.Memory.Paddr.{Memory, paddr_read}
use my_oscpu.Device.Map.{
  Io, IoMap, Bus, find_map, map_read, mmio_read, fetch_mmio_map, skip_on_hit, io_space_max,
}
use my_oscpu.Device.Clock.{Clock, get_time}
use my_oscpu.Device.Timer.{latch_time}
use my_oscpu.Device.Timer.Latch.{rtc_map, latch_time-map_read}
use my_oscpu.Am.Ioe.{inl, rtc_addr, am_timer_uptime}

second_branch :
    {A : Type 0} (p q : Bool) (a b c : A)
    → p ≡ false
    → q ≡ true
    → (if p then a else if q then b else c) ≡ b
second_branch p q a b c e f = rw (e, f) refl

module _ {D : Type 0} (cfg : Config) where
  mmio_read-find_map :
      (addr v : ℕ) (map : IoMap D) (io' : Io D) (bus : Bus D)
      → find_map bus.maps addr ≡ some map
      → map_read cfg addr 4 (some map) bus.io ≡ ok (v, io')
      → mmio_read cfg addr 4 bus ≡ ok (v, record (skip_on_hit cfg (some map) bus) { io = io' })
  unfolding mmio_read fetch_mmio_map skip_on_hit
  mmio_read-find_map addr v map io' bus found read =
      rw found
        (ap (λ r. r >>= λ q. ok (q.0, record (skip_on_hit cfg (some map) bus) { io = q.1 })) read)

  -- A load from a region of a device.
  inl-find_map :
      (addr v : ℕ) (map : IoMap D) (io' : Io D) (m : Memory D)
      → cfg.device ≡ true
      → in_pmem cfg addr ≡ false
      → find_map m.bus.maps addr ≡ some map
      → map_read cfg addr 4 (some map) m.bus.io ≡ ok (v, io')
      → inl cfg addr m
        ≡ ok (v, record m { bus = record (skip_on_hit cfg (some map) m.bus) { io = io' } })
  unfolding inl paddr_read
  inl-find_map addr v map io' m device outside found read =
      second_branch (in_pmem cfg addr) cfg.device _ _ _ outside device
      ∙ ap (λ r. r >>= λ q. ok (q.0, record m { bus = q.1 }))
          (mmio_read-find_map addr v map io' m.bus found read)

-- What a reading of the clock leaves: both loads have been seen by the differential test.
abbrev pub latched : Config → (ℕ → ℕ) → ℕ → Memory Clock → Memory Clock
latched cfg reading base m =
    let map = rtc_map reading rtc_addr base in
    let bus1 = record (skip_on_hit cfg (some map) m.bus) {
      io = latch_time reading base m.bus.io;
    } in
    record m {
      bus = record (skip_on_hit cfg (some map) bus1) { io = latch_time reading base m.bus.io };
    }

module _ (cfg : Config) (reading : ℕ → ℕ) (base : ℕ) where
  -- Where the bus finds the real-time clock's region at both of its words, outside physical memory, and its place
  -- is inside the arena, the guest's `__am_timer_uptime` gives exactly the one time that the emulator's `get_time`
  -- reads, and the emulator's clock is read once.
  pub am_timer_uptime-get_time :
      (m : Memory Clock)
      → cfg.device ≡ true
      → in_pmem cfg (rtc_addr + 4) ≡ false
      → in_pmem cfg rtc_addr ≡ false
      → find_map m.bus.maps (rtc_addr + 4) ≡ some (rtc_map reading rtc_addr base)
      → find_map m.bus.maps rtc_addr ≡ some (rtc_map reading rtc_addr base)
      → base + 8 ≤ io_space_max
      → am_timer_uptime cfg m ≡ ok ((get_time reading m.bus.io.dev).0, latched cfg reading base m)
  unfolding am_timer_uptime
  am_timer_uptime-get_time m device high_out low_out high low inside =
      let map = rtc_map reading rtc_addr base in
      let t = (get_time reading m.bus.io.dev).0 in
      let halves : t / 2 ^ 32 * 2 ^ 32 + t % 2 ^ 32 ≡ t = omega arith in
      let io' = latch_time reading base m.bus.io in
      let m1 = record m { bus = record (skip_on_hit cfg (some map) m.bus) { io = io' } } in
      let still : find_map m1.bus.maps rtc_addr ≡ find_map m.bus.maps rtc_addr =
        unfold skip_on_hit in refl in
      let reads = latch_time-map_read cfg reading rtc_addr base m.bus.io inside in
      let first =
        inl-find_map cfg (rtc_addr + 4) (t / 2 ^ 32) map io' m device high_out high reads.0 in
      let second =
        inl-find_map cfg rtc_addr (t % 2 ^ 32) map io' m1 device low_out (still ∙ low) reads.1 in
      rw (first, second, halves) refl
