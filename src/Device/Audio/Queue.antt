-- ===== src/Device/Audio/Queue.antt =====
-- The buffer of samples is a queue (`audio_callback` of nemu/src/device/audio.c).
use my_oscpu.Base.{
  ℕ, ◌+◌, ◌-◌, ◌^◌, ◌≤◌, ◌<◌, ◌≡◌, refl, arith, true, Bool-cases, inl, inr, ltb, leb, ◌&&◌, ok, ◌⊎◌,
  ap, ◌∙◌,
}
use my_oscpu.Memory.Bytes.{Bytes}
use my_oscpu.Device.Map.{Io, io_space_max}
use my_oscpu.Device.Audio.{Audio, audio_callback, fill_stream, move_front}

-- What a reader of `len` bytes of the queue of `io` takes from it: the bytes that wait and then silence, and what
-- waits behind them comes to the front.
pub record Takes (sbuf len : ℕ) (io : Io Audio) (r : Bytes × Io Audio) : Type 0 where
  pub sound : (k : ℕ) → k < len → k < io.dev.sbuf_count → r.0 k ≡ io.space (sbuf + k)
  pub silence : (k : ℕ) → io.dev.sbuf_count ≤ k → r.0 k ≡ 0
  pub number : r.1.dev.sbuf_count ≡ io.dev.sbuf_count - len
  pub rest : (k : ℕ) → k < r.1.dev.sbuf_count → r.1.space (sbuf + k) ≡ io.space (sbuf + len + k)
  pub kept : (i : ℕ) → (i < sbuf) ⊎ (sbuf + r.1.dev.sbuf_count ≤ i) → r.1.space i ≡ io.space i

fill_stream_sound :
    (sbuf n k : ℕ) (space : Bytes) → k < n → fill_stream sbuf n space k ≡ space (sbuf + k)
unfolding fill_stream
fill_stream_sound sbuf n k space h = ground arith

fill_stream_silence : (sbuf n k : ℕ) (space : Bytes) → n ≤ k → fill_stream sbuf n space k ≡ 0
unfolding fill_stream
fill_stream_silence sbuf n k space h = ground arith

move_front_rest :
    (sbuf len n k : ℕ) (space : Bytes)
    → k < n
    → move_front sbuf len n space (sbuf + k) ≡ space (sbuf + k + len)
unfolding move_front
move_front_rest sbuf len n k space h = ground arith

move_front_others :
    (sbuf len n i : ℕ) (space : Bytes)
    → (i < sbuf) ⊎ (sbuf + n ≤ i)
    → move_front sbuf len n space i ≡ space i
unfolding move_front
move_front_others sbuf len n i space h = ground arith

-- The stream and the state where more waits than SDL asks for.
abbrev some_left : ℕ → ℕ → Io Audio → Bytes × Io Audio
some_left sbuf len io = (
  fill_stream sbuf len io.space,
  record {
    space = move_front sbuf len (io.dev.sbuf_count - len) io.space;
    dev = record io.dev { sbuf_count = io.dev.sbuf_count - len };
  },
)

-- The stream and the state where all that waits is taken.
abbrev none_left : ℕ → Io Audio → Bytes × Io Audio
none_left sbuf io = (
  fill_stream sbuf io.dev.sbuf_count io.space,
  record io { dev = record io.dev { sbuf_count = 0 } },
)

module _ (sbuf len : ℕ) (io : Io Audio) where
  some_left-Takes : len < io.dev.sbuf_count → Takes sbuf len io (some_left sbuf len io)
  some_left-Takes h =
      let count = io.dev.sbuf_count in
      record {
        sound = λ k l c. fill_stream_sound sbuf len k io.space l;
        silence = λ k c. fill_stream_silence sbuf len k io.space (omega (arith, h, c));
        number = refl;
        rest =
            λ k c. move_front_rest sbuf len (count - len) k io.space c ∙ ap io.space (omega arith);
        kept = λ i c. move_front_others sbuf len (count - len) i io.space c;
      }

  none_left-Takes : io.dev.sbuf_count ≤ len → Takes sbuf len io (none_left sbuf io)
  none_left-Takes h = record {
    sound = λ k l c. fill_stream_sound sbuf io.dev.sbuf_count k io.space c;
    silence = λ k c. fill_stream_silence sbuf io.dev.sbuf_count k io.space c;
    number = omega (arith, h);
    rest = λ k c. absurd (omega (arith, c));
    kept = λ i c. refl;
  }

  -- `audio_callback` for `len` bytes takes them from the front of the queue of samples: the stream is what waits and
  -- then silence, what waits behind comes to the front, and no byte of the arena changes but those that the queue
  -- occupies afterwards. The queue is inside
  -- the arena, and its count is not negative as an int.
  pub audio_callback-Takes :
      io.dev.sbuf_count < 2 ^ 31
      → sbuf + io.dev.sbuf_count ≤ io_space_max
      → (r : Bytes × Io Audio) × (audio_callback sbuf len io ≡ ok r) × Takes sbuf len io r
  unfolding audio_callback
  audio_callback-Takes word inside =
      let fits : (ltb io.dev.sbuf_count (2 ^ 31) && leb (sbuf + io.dev.sbuf_count) io_space_max)
          ≡ true =
        ground arith in
      elim (Bool-cases (ltb len io.dev.sbuf_count)) [
        | inl more ↦
            (some_left sbuf len io, rw (fits, more) refl, some_left-Takes (ground (arith, more)))
        | inr all ↦ (none_left sbuf io, rw (fits, all) refl, none_left-Takes (ground (arith, all)))
      ]
