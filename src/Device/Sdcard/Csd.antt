-- ===== src/Device/Sdcard/Csd.antt =====
-- The extended CSD of nemu/src/device/sdcard.c is read through SDDATA, a word at a time.
use my_oscpu.Base.{
  ℕ, zero, suc, ◌+◌, ◌-◌, ◌*◌, ◌%◌, ◌^◌, ◌≤◌, ◌<◌, ◌≡◌, refl, ◌∙◌, ap, arith, true, false, not, ltb,
  lt→ltb, ◌==◌, some, Result, ok, ◌>>=◌,
}
use my_oscpu.Config.{Config}
use my_oscpu.Memory.Bytes.{read_le, read_le-write_le}
use my_oscpu.Memory.Host.{word}
use my_oscpu.Device.Access.{map_read-inside}
use my_oscpu.Device.Map.{Io, IoMap, map_read, invoke_callback, io_space_max}
use my_oscpu.Device.Sdcard.{
  CardFile, Sdcard, word_at, sdcard_io_handler, sdcard_handle_cmd, transfer_word, ext_csd,
  next_addr, set_word,
}

-- The region that `init_sdcard` adds, at `low`.
abbrev pub sdhci_map : {F : Type 0} → CardFile F → ℕ → ℕ → IoMap (Sdcard F)
sdhci_map f base low = record {
  name = "sdhci";
  low = low;
  high = low + 127;
  space = base;
  callback = some (sdcard_io_handler f base);
}

offset_of : (low k : ℕ) → low + k - low ≡ k
offset_of low k = omega arith

module _ {F : Type 0} (cfg : Config) (f : CardFile F) (base low : ℕ) where
  -- A load of SDDATA from the region.
  abbrev pub load_data : Io (Sdcard F) → Result (ℕ × Io (Sdcard F))
  load_data io = map_read cfg (low + 64) 4 (some (sdhci_map f base low)) io

  -- `n` loads of SDDATA, one behind the other.
  unfoldable pub read_data : ℕ → Io (Sdcard F) → Result (Io (Sdcard F))
  read_data zero io = ok io
  read_data (suc n) io = do io1 ← read_data n io; (v, io2) ← load_data io1; ok io2

  -- `k` words of the extended CSD are read.
  pub record HasRead (k : ℕ) (io : Io (Sdcard F)) : Type 0 where
    pub addr : io.dev.addr ≡ 4 * k
    pub more : io.dev.read_ext_csd ≡ ltb k 128

  ext_csd-lt : (a : ℕ) → ext_csd f base a % 2 ^ 32 ≡ ext_csd f base a
  ext_csd-lt a = ground arith

  one_word :
      (k : ℕ) (io : Io (Sdcard F))
      → k < 128
      → HasRead k io
      → (io' : Io (Sdcard F)) × (sdcard_io_handler f base 64 4 false io ≡ ok io')
        × HasRead (suc k) io'
        × (word_at f base 16 io' ≡ ext_csd f base (4 * k))
  unfolding sdcard_io_handler transfer_word
  one_word k io l r = (
    next_addr f base (
        set_word f base 16 (ext_csd f base io.dev.addr)
          (record io { dev = record io.dev { read_ext_csd = not (io.dev.addr == 512 - 4) } })),
    rw (r.more, lt→ltb k 128 l) refl,
    record { addr = ground (arith, r.addr, l); more = ground (arith, r.addr, l) },
    read_le-write_le 4 io.space (base + 64) (ext_csd f base io.dev.addr)
        ∙ ap (λ v. v % 2 ^ 32) (ap (ext_csd f base) r.addr)
        ∙ ext_csd-lt (4 * k),
  )

  -- The load gives the word that the handler has put into the register.
  load_one :
      (k : ℕ) (io : Io (Sdcard F))
      → k < 128
      → base + 128 ≤ io_space_max
      → HasRead k io
      → (io' : Io (Sdcard F)) × (load_data io ≡ ok (ext_csd f base (4 * k), io'))
        × HasRead (suc k) io'
        × (word_at f base 16 io' ≡ ext_csd f base (4 * k))
  unfolding invoke_callback
  load_one k io l inside r =
      let (io', is, r', w) = one_word k io l r in
      let reads =
        map_read-inside cfg (sdhci_map f base low) (low + 64) word (omega arith) (omega arith) io
          io' (rw (offset_of low 64) is) (omega (arith, inside)) in
      (
        io',
        reads
            ∙ ap (λ v. ok (v, io'))
                (ap (λ x. read_le 4 io'.space (base + x)) (offset_of low 64) ∙ w),
        r',
        w,
      )

  -- `MMC_SEND_EXT_CSD`.
  abbrev pub asked : Io (Sdcard F) → Io (Sdcard F)
  asked io = record io { dev = record io.dev { read_ext_csd = true; addr = 0 } }

  read_data-HasRead :
      (k : ℕ) (io : Io (Sdcard F))
      → k ≤ 128
      → base + 128 ≤ io_space_max
      → (io' : Io (Sdcard F)) × (read_data k (asked io) ≡ ok io') × HasRead k io'
  unfolding read_data
  read_data-HasRead zero io h inside = (asked io, refl, record { addr = refl; more = refl })
  read_data-HasRead (suc k) io h inside =
      let (io1, reads, r) = read_data-HasRead k io (omega arith) inside in
      let (io2, is, r', w) = load_one k io1 (omega arith) inside r in
      (
        io2,
        ap (λ r. r >>= λ i. load_data i >>= λ q. ok q.1) reads ∙ ap (λ r. r >>= λ q. ok q.1) is,
        r',
      )

  -- Behind the command 8 (`MMC_SEND_EXT_CSD`), the next 128 loads of SDDATA from the card's region succeed, if it is
  -- inside the arena: load `k` + 1 gives word `k` of the extended CSD, which the data register has then, and the card
  -- goes on giving its words as long as fewer than 128 are loaded, and then stops.
  pub read_data-ext_csd :
      (k : ℕ) (io : Io (Sdcard F))
      → k < 128
      → base + 128 ≤ io_space_max
      → (io' io1 io'' : Io (Sdcard F)) × (sdcard_handle_cmd f base 8 io ≡ ok io')
        × (read_data k io' ≡ ok io1)
        × (map_read cfg (low + 64) 4 (some (sdhci_map f base low)) io1
            ≡ ok (ext_csd f base (4 * k), io''))
        × (read_data (suc k) io' ≡ ok io'')
        × (word_at f base 16 io'' ≡ ext_csd f base (4 * k))
        × (io''.dev.read_ext_csd ≡ ltb (suc k) 128)
  unfolding read_data sdcard_handle_cmd
  read_data-ext_csd k io h inside =
      let (io1, reads, r) = read_data-HasRead k io (omega arith) inside in
      let (io2, is, r', w) = load_one k io1 h inside r in
      (
        asked io,
        io1,
        io2,
        refl,
        reads,
        is,
        ap (λ r. r >>= λ i. load_data i >>= λ q. ok q.1) reads ∙ ap (λ r. r >>= λ q. ok q.1) is,
        w,
        r'.more,
      )
