-- ===== src/Device/Audio.antt =====
-- nemu/src/device/audio.c: the registers at `base` in the arena. SDL's calls are left out; `opened` is that
-- `s.callback` is set. `channels` is a Uint8 and `samples` a Uint16.
pub mod Queue
use my_oscpu.Base.{
  ℕ, ◌+◌, ◌*◌, Bool, true, ◌&&◌, not, ◌==◌, if◌then◌else◌, ok, u8, u16, leb, ltb, ◌-◌, ◌^◌, Result,
  undefined, ◌>>◌, guard,
}
use my_oscpu.Memory.Bytes.{Bytes, read_le, write_le}
use my_oscpu.Device.Map.{Io, Callback, io_space_max}

pub record Audio : Type 0 where
  pub freq : ℕ
  pub channels : ℕ
  pub samples : ℕ
  pub size : ℕ
  pub opened : Bool
  pub sbuf_count : ℕ

abbrev pub audio_reg : ℕ → ℕ → Bytes → ℕ
audio_reg base i space = read_le 4 space (base + i * 4)

abbrev pub set_audio_reg : ℕ → ℕ → ℕ → Io Audio → Io Audio
set_audio_reg base i v io = record io { space = write_le 4 io.space (base + i * 4) v }

-- `addr_init` written: the device opens once.
unfoldable pub open_audio : ℕ → ℕ → Io Audio → Io Audio
open_audio sb_size base io =
    if (audio_reg base 4 io.space == 1) && not io.dev.opened
    then record (set_audio_reg base 4 0 io) {
      dev = record io.dev { size = sb_size; opened = true };
    }
    else io

unfoldable pub audio_write : ℕ → ℕ → ℕ → Io Audio → Io Audio
unfolding open_audio
audio_write sb_size base offset io =
    if offset == 0
    then record io { dev = record io.dev { freq = audio_reg base 0 io.space } }
    else if offset == 4
    then record io { dev = record io.dev { channels = u8 (audio_reg base 1 io.space) } }
    else if offset == 8
    then record io { dev = record io.dev { samples = u16 (audio_reg base 2 io.space) } }
    else if offset == 20
    then record io { dev = record io.dev { sbuf_count = audio_reg base 5 io.space } }
    else if offset == 16
    then open_audio sb_size base io
    else io

unfoldable pub audio_read : ℕ → ℕ → ℕ → Io Audio → Io Audio
audio_read sb_size base offset io =
    if offset == 12
    then set_audio_reg base 3 sb_size io
    else if offset == 20
    then set_audio_reg base 5 io.dev.sbuf_count io
    else io

unfoldable pub audio_io_handler : ℕ → ℕ → Callback Audio
unfolding audio_write audio_read
audio_io_handler sb_size base offset len is_write io =
    ok (if is_write then audio_write sb_size base offset io else audio_read sb_size base offset io)

-- SDL_memcpy of `n` bytes from `sbuf` to the front of the stream, and SDL_memset of what is left.
unfoldable pub fill_stream : ℕ → ℕ → Bytes → Bytes
fill_stream sbuf n space k = if ltb k n then space (sbuf + k) else 0

-- SDL_memmove of `n` bytes at `sbuf + len` to `sbuf`.
unfoldable pub move_front : ℕ → ℕ → ℕ → Bytes → Bytes
move_front sbuf len n space i = if leb sbuf i && ltb i (sbuf + n) then space (i + len) else space i

-- The callback of SDL for `len` bytes; the first result is the stream. `sbuf_count` is an int, and a copy of a
-- negative number of bytes, or from outside of the arena, is not defined.
unfoldable pub audio_callback : ℕ → ℕ → Io Audio → Result (Bytes × Io Audio)
unfolding fill_stream move_front
audio_callback sbuf len io =
    let count = io.dev.sbuf_count in
    guard (ltb count (2 ^ 31) && leb (sbuf + count) io_space_max) undefined
    >> ok (
        if ltb len count
        then (
          fill_stream sbuf len io.space,
          record {
            space = move_front sbuf len (count - len) io.space;
            dev = record io.dev { sbuf_count = count - len };
          },
        )
        else (
          fill_stream sbuf count io.space,
          record io { dev = record io.dev { sbuf_count = 0 } },
        ))
