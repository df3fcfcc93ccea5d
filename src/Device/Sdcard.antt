-- ===== src/Device/Sdcard.antt =====
-- nemu/src/device/sdcard.c: an SD card without DMA and interrupts, its registers at `base` in the arena. The
-- image file is a parameter: `fseek`, `fread` of a word, of which a part may stay as it was, and `fwrite` of
-- one.
pub mod Csd
use my_oscpu.Base.{
  ℕ, ◌+◌, ◌-◌, ◌*◌, ◌/◌, ◌%◌, ◌^◌, Bool, true, false, ◌==◌, ◌||◌, ltb, leb, ◌&&◌, not,
  if◌then◌else◌, Option, none, some, bit_and, bit_or, u32, Result, ok, err, panic, ◌>>=◌,
}
use my_oscpu.Memory.Bytes.{read_le, write_le}
use my_oscpu.Device.Map.{Io, Callback}

pub record CardFile (F : Type 0) : Type 0 where
  pub fseek : ℕ → F → F
  pub fread_word : ℕ → F → ℕ × F
  pub fwrite_word : ℕ → F → F

pub record Sdcard (F : Type 0) : Type 0 where
  pub fp : Option F
  pub blkcnt : ℕ
  pub blk_addr : ℕ
  pub addr : ℕ
  pub write_cmd : Bool
  pub read_ext_csd : Bool

abbrev pub memory_size : ℕ
memory_size = 16 * 1024 * 1024 * 1024

abbrev pub c_size : ℕ
c_size = memory_size / 2 ^ 15 / 2 ^ 9 - 1

module _ {F : Type 0} (f : CardFile F) (base : ℕ) where
  abbrev pub word_at : ℕ → Io (Sdcard F) → ℕ
  word_at i io = read_le 4 io.space (base + i * 4)

  abbrev pub set_word : ℕ → ℕ → Io (Sdcard F) → Io (Sdcard F)
  set_word i v io = record io { space = write_le 4 io.space (base + i * 4) v }

  abbrev pub set_rsp : ℕ → ℕ → ℕ → ℕ → Io (Sdcard F) → Io (Sdcard F)
  set_rsp r0 r1 r2 r3 io = set_word 7 r3 (set_word 6 r2 (set_word 5 r1 (set_word 4 r0 io)))

  abbrev pub seek_file : ℕ → Option F → Option F
  seek_file pos none = none
  seek_file pos (some fp) = some (f.fseek pos fp)

  unfoldable pub prepare_rw : Bool → Io (Sdcard F) → Io (Sdcard F)
  prepare_rw is_write io =
      let blk_addr = word_at 1 io in
      record io {
        dev = record io.dev {
          blk_addr = blk_addr;
          addr = 0;
          fp = seek_file (blk_addr * 2 ^ 9) io.dev.fp;
          write_cmd = is_write;
        };
      }

  -- The commands that do nothing: MMC_GO_IDLE_STATE, 52, MMC_SLEEP_AWAKE, MMC_APP_CMD,
  -- MMC_SET_RELATIVE_ADDR, MMC_SELECT_CARD and MMC_STOP_TRANSMISSION.
  abbrev pub is_ignored : ℕ → Bool
  is_ignored cmd =
      (cmd == 0)
      || (cmd == 52)
      || (cmd == 5)
      || (cmd == 55)
      || (cmd == 3)
      || (cmd == 7)
      || (cmd == 12)

  unfoldable pub sdcard_handle_cmd : ℕ → Io (Sdcard F) → Result (Io (Sdcard F))
  unfolding prepare_rw
  sdcard_handle_cmd cmd io =
      if is_ignored cmd
      then ok io
      else if cmd == 1
      then ok (set_word 4 0x80ff8000 io)
      else if cmd == 2
      then ok (set_rsp 1 0 0 0x15000000 io)
      else if cmd == 9
      then ok (
          set_rsp 0x92404001 (bit_or 0x124b97e3 (bit_and c_size 3 * 2 ^ 30))
            (bit_or (bit_or 0x0f508000 (c_size / 2 ^ 2)) (15 * 2 ^ 16)) 0x9026012a io)
      else if cmd == 8
      then ok (record io { dev = record io.dev { read_ext_csd = true; addr = 0 } })
      else if cmd == 23
      then ok (record io { dev = record io.dev { blkcnt = bit_and (word_at 1 io) 0xffff } })
      else if cmd == 18
      then ok (prepare_rw false io)
      else if cmd == 25
      then ok (prepare_rw true io)
      else if cmd == 13
      then ok (set_rsp 0x900 0 0 0 io)
      else err (panic "unhandled command")

  -- The word of the extended CSD at an address.
  abbrev pub ext_csd : ℕ → ℕ
  ext_csd addr = if addr == 192 then 2 else if addr == 212 then memory_size / 512 else 0

  unfoldable pub transfer_file : Option F → Io (Sdcard F) → Io (Sdcard F)
  transfer_file none io = io
  transfer_file (some fp) io =
      let (v, fp') = f.fread_word (word_at 16 io) fp in
      if io.dev.write_cmd
      then record io { dev = record io.dev { fp = some (f.fwrite_word (word_at 16 io) fp) } }
      else set_word 16 v (record io { dev = record io.dev { fp = some fp' } })

  -- SDDATA: a word of the extended CSD, or of the file.
  unfoldable pub transfer_word : Io (Sdcard F) → Io (Sdcard F)
  unfolding transfer_file
  transfer_word io =
      if io.dev.read_ext_csd
      then set_word 16 (ext_csd io.dev.addr)
          (record io { dev = record io.dev { read_ext_csd = not (io.dev.addr == 512 - 4) } })
      else transfer_file io.dev.fp io

  abbrev pub next_addr : Io (Sdcard F) → Io (Sdcard F)
  next_addr io = record io { dev = record io.dev { addr = u32 (io.dev.addr + 4) } }

  unfoldable pub sdcard_io_handler : Callback (Sdcard F)
  unfolding sdcard_handle_cmd transfer_word
  sdcard_io_handler offset len is_write io =
      let idx = offset / 4 in
      if idx == 0
      then sdcard_handle_cmd (bit_and (word_at 0 io) 0x3f) io
      else if (idx == 1) || (leb 4 idx && leb idx 7)
      then ok io
      else if idx == 16
      then ok (next_addr (transfer_word io))
      else err (panic "unhandle offset")
