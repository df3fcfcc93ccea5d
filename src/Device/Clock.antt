-- ===== src/Device/Clock.antt =====
-- nemu/src/utils/timer.c: the time since the first call. The readings of the host's clock, in microseconds, are
-- a parameter; the state counts how many were taken.
use my_oscpu.Base.{ℕ, suc, zero, ◌+◌, ◌-◌, ◌%◌, ◌^◌, ◌≤◌, ◌<◌, arith, ◌==◌, if◌then◌else◌}

pub record Clock : Type 0 where
  pub boot_time : ℕ
  pub calls : ℕ

module _ (reading : ℕ → ℕ) where
  unfoldable pub get_time_internal : Clock → ℕ × Clock
  get_time_internal c = (reading c.calls, record c { calls = suc c.calls })

  -- `boot_time` is set by the first call.
  unfoldable pub set_boot_time : Clock → Clock
  unfolding get_time_internal
  set_boot_time c =
      let (now, c') = get_time_internal c in
      if c.boot_time == 0 then record c' { boot_time = now } else c

  unfoldable pub get_time : Clock → ℕ × Clock
  unfolding set_boot_time get_time_internal
  get_time c =
      let c1 = set_boot_time c in
      let (now, c2) = get_time_internal c1 in ((now + 2 ^ 64 - c2.boot_time) % 2 ^ 64, c2)

  -- The host's clock does not go back, does not read 0 and has 64 bits.
  pub record IsMonotone : Type 0 where
    pub rises : (i : ℕ) → reading i ≤ reading (suc i)
    pub starts : 1 ≤ reading 0
    pub word : (i : ℕ) → reading i < 2 ^ 64

  -- The boot time is 0, or no later than the next reading.
  pub record IsStarted (c : Clock) : Type 0 where
    pub before : c.boot_time ≤ reading c.calls

  reading_positive : (i : ℕ) → IsMonotone → 1 ≤ reading i
  reading_positive zero m = m.starts
  reading_positive (suc i) m = omega (arith, reading_positive i m, m.rises i)

  -- Of two calls of `get_time`, one behind the other, the second gives no earlier time, if the host's clock never
  -- goes back, never reads 0 and has 64 bits, and the boot time is 0 (the clock was never read) or else no later
  -- than the next reading. The last condition holds again behind the first call.
  pub get_time_monotone :
      (c : Clock)
      → IsMonotone
      → IsStarted c
      → let (t, c') = get_time c in let (t', c'') = get_time c' in (t ≤ t') × IsStarted c'
  unfolding get_time set_boot_time get_time_internal
  get_time_monotone c m s =
      let r0 = m.rises c.calls in
      let r1 = m.rises (suc c.calls) in
      let w0 = m.word c.calls in
      let w1 = m.word (suc c.calls) in
      let w2 = m.word (suc (suc c.calls)) in
      let p = reading_positive c.calls m in
      (
        ground (arith, s.before, r0, r1, w0, w1, w2, p),
        record { before = ground (arith, s.before, r0, r1) },
      )
