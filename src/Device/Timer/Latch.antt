-- ===== src/Device/Timer/Latch.antt =====
-- A guest reads the two words of the clock one after the other (nemu/src/device/timer.c).
use my_oscpu.Base.{ℕ, ◌+◌, ◌-◌, ◌/◌, ◌%◌, ◌^◌, ◌≤◌, ◌<◌, ◌≡◌, refl, ap, ◌∙◌, arith, some, ok, inl}
use my_oscpu.Config.{Config}
use my_oscpu.Memory.Bytes.{Bytes, read_le, write_le, read_le-write_le, read_le_ext, write_le_frame}
use my_oscpu.Memory.Host.{word}
use my_oscpu.Device.Access.{map_read-inside}
use my_oscpu.Device.Map.{Io, IoMap, map_read, invoke_callback, io_space_max}
use my_oscpu.Device.Clock.{Clock, get_time}
use my_oscpu.Device.Timer.{rtc_io_handler, latch_time}

-- The region that `init_timer` adds, at `low`.
abbrev pub rtc_map : (ℕ → ℕ) → ℕ → ℕ → IoMap Clock
rtc_map reading low base = record {
  name = "rtc";
  low = low;
  high = low + 7;
  space = base;
  callback = some (rtc_io_handler reading base);
}

offset_of : (low k : ℕ) → low + k - low ≡ k
offset_of low k = omega arith

add_zero : (n : ℕ) → n + 0 ≡ n
add_zero n = omega arith

get_time-lt : (reading : ℕ → ℕ) (c : Clock) → (get_time reading c).0 < 2 ^ 64
unfolding get_time
get_time-lt reading c = omega arith

-- Two words in a row are read back.
second_word :
    (b : Bytes) (base lo hi : ℕ)
    → hi < 2 ^ 32
    → read_le 4 (write_le 4 (write_le 4 b base lo) (base + 4) hi) (base + 4) ≡ hi
second_word b base lo hi h =
    read_le-write_le 4 (write_le 4 b base lo) (base + 4) hi ∙ omega (arith, h)

first_word :
    (b : Bytes) (base lo hi : ℕ)
    → lo < 2 ^ 32
    → read_le 4 (write_le 4 (write_le 4 b base lo) (base + 4) hi) base ≡ lo
first_word b base lo hi h =
    read_le_ext 4 (write_le 4 (write_le 4 b base lo) (base + 4) hi) (write_le 4 b base lo) base
      (λ i p q. write_le_frame 4 (write_le 4 b base lo) (base + 4) hi i (inl q))
    ∙ read_le-write_le 4 b base lo
    ∙ omega (arith, h)

module _ (cfg : Config) (reading : ℕ → ℕ) (low base : ℕ) where
  -- The offset 4 takes the time, and offset 0 what was taken: a load of the high word and then of the low word
  -- of the region gives the two halves of one time, if the region is inside the arena.
  pub latch_time-map_read :
      (io : Io Clock)
      → base + 8 ≤ io_space_max
      → let io' = latch_time reading base io in
        let t = (get_time reading io.dev).0 in
        (map_read cfg (low + 4) 4 (some (rtc_map reading low base)) io ≡ ok (t / 2 ^ 32, io'))
        × (map_read cfg (low + 0) 4 (some (rtc_map reading low base)) io' ≡ ok (t % 2 ^ 32, io'))
  unfolding rtc_io_handler invoke_callback latch_time
  latch_time-map_read io inside =
      let t = (get_time reading io.dev).0 in
      let high =
        map_read-inside cfg (rtc_map reading low base) (low + 4) word (omega arith) (omega arith) io
          (latch_time reading base io) (rw (offset_of low 4) refl) (omega (arith, inside)) in
      let down =
        map_read-inside cfg (rtc_map reading low base) (low + 0) word (omega arith) (omega arith)
          (latch_time reading base io) (latch_time reading base io) (rw (offset_of low 0) refl)
          (omega (arith, inside)) in
      (
        high
            ∙ ap (λ v. ok (v, latch_time reading base io))
                (ap (λ o. read_le 4 (latch_time reading base io).space (base + o)) (offset_of low 4)
                  ∙ second_word io.space base (t % 2 ^ 32) (t / 2 ^ 32)
                      (omega (arith, get_time-lt reading io.dev))),
        down
            ∙ ap (λ v. ok (v, latch_time reading base io))
                (ap (λ o. read_le 4 (latch_time reading base io).space (base + o)) (offset_of low 0)
                  ∙ ap (read_le 4 (latch_time reading base io).space) (add_zero base)
                  ∙ first_word io.space base (t % 2 ^ 32) (t / 2 ^ 32) (omega arith)),
      )
