-- ===== src/Device/Init.antt =====
-- `init_device` of nemu/src/device/device.c and what it calls: `init_map` of nemu/src/device/io/map.c, and the
-- initialization of each device. Each takes its pages of the arena and registers its regions, memory-mapped. The
-- handlers are those of the devices, on the part of the state that they keep. SDL's window and audio, the host's
-- timer and what fopen gives are left out or parameters; the keyboard's keymap is filled before.
pub mod Regions
use Prim.Native.String.{String}
use my_oscpu.Base.{
  ℕ, ◌+◌, ◌-◌, ◌*◌, ◌%◌, ◌^◌, Bool, ◌&&◌, leb, ltb, if◌then◌else◌, Option, none, some, List, [],
  bit_or, u32, Result, ok, panic, ◌>>=◌, ◌>>◌, guard,
}
use my_oscpu.Config.{Config}
use my_oscpu.Memory.Bytes.{Bytes, write_le}
use my_oscpu.Device.Map.{Io, Callback, IoMap, new_space}
use my_oscpu.Device.Mmio.{add_mmio_map}
use my_oscpu.Device.Clock.{Clock}
use my_oscpu.Device.Timer.{rtc_io_handler}
use my_oscpu.Device.Serial.{Serial, serial_io_handler}
use my_oscpu.Device.Keyboard.{Keyboard, key_none, i8042_data_io_handler}
use my_oscpu.Device.Audio.{Audio, audio_io_handler}
use my_oscpu.Device.Sdcard.{CardFile, Sdcard, c_size, sdcard_io_handler}
use my_oscpu.Device.Alarm.{add_alarm_handle}

-- nemu/src/device/Kconfig: the options that Config does not have.
pub record Board : Type 0 where
  pub has_serial : Bool
  pub has_timer : Bool
  pub has_audio : Bool
  pub has_sdcard : Bool
  pub vga_show_screen : Bool
  pub serial_mmio : ℕ
  pub rtc_mmio : ℕ
  pub vga_ctl_mmio : ℕ
  pub fb_addr : ℕ
  pub i8042_data_mmio : ℕ
  pub audio_ctl_mmio : ℕ
  pub sb_addr : ℕ
  pub sb_size : ℕ
  pub sdcard_ctl_mmio : ℕ
  pub screen_w : ℕ
  pub screen_h : ℕ

-- What the devices' files keep in their static variables.
pub record Devices (F : Type 0) : Type 0 where
  pub serial : Serial
  pub clock : Clock
  pub keyboard : Keyboard
  pub audio : Audio
  pub sdcard : Sdcard F

-- A handler on its part of the state.
abbrev on_part : {D E : Type 0} → (D → E) → (E → D → D) → Callback E → Callback D
on_part get put c offset len is_write io = do
  io' ← c offset len is_write (record { space = io.space; dev = get io.dev })
  ok (record { space = io'.space; dev = put io'.dev io.dev })

-- The state of the initialization: the arena and `p_space`, the devices, the table of regions, the alarm's
-- handlers on a state `S`, and the VGA controller's registers.
pub record Setup (F S : Type 0) : Type 0 where
  pub space : Bytes
  pub p_space : ℕ
  pub devices : Devices F
  pub maps : List (IoMap (Devices F))
  pub handlers : List (S → S)
  pub vgactl_port_base : ℕ

-- `memset(vmem, 0, n)`.
unfoldable pub clear_space : ℕ → ℕ → Bytes → Bytes
clear_space base n space i = if leb base i && ltb i (base + n) then 0 else space i

unfoldable pub screen_size : Board → ℕ
screen_size b = u32 (u32 (b.screen_w * b.screen_h) * 4)

-- `dev_raise_intr` of nemu/src/device/intr.c has an empty body.
abbrev dev_raise_intr : {S : Type 0} → S → S
dev_raise_intr s = s

-- `timer_intr`; the argument is the test of the emulator's state.
unfoldable pub timer_intr : {S : Type 0} → (S → Bool) → S → S
timer_intr running s = if running s then dev_raise_intr s else s

abbrev as_is : ℕ → Bytes → Bytes
as_is base space = space

abbrev no_callback : {D : Type 0} → ℕ → Option (Callback D)
no_callback base = none

-- `io_space` has been allocated; its bytes are arbitrary.
unfoldable pub init_map : {F S : Type 0} → Setup F S → Setup F S
init_map s = record s { p_space = 0 }

module _ {F S : Type 0} (cfg : Config) (b : Board) where
  -- `new_space`, what the device writes into it, and `add_mmio_map`, with the region's address.
  unfoldable pub add_region :
      String
      → ℕ
      → ℕ
      → (ℕ → Bytes → Bytes)
      → (ℕ → Option (Callback (Devices F)))
      → Setup F S
      → Result (ℕ × Setup F S)
  add_region name addr size fill callback s = do
    (base, p') ← new_space s.p_space size
    maps' ← add_mmio_map cfg name addr base size (callback base) s.maps
    ok (base, record s { space = fill base s.space; p_space = p'; maps = maps' })

  unfoldable pub init_serial : Setup F S → Result (Setup F S)
  init_serial s = do
    (base, s') ←
        add_region "serial" b.serial_mmio 8 as_is
          (λ base.
            some
              (on_part (λ d. d.serial) (λ e d. record d { serial = e }) (serial_io_handler base)))
          s
    ok s'

  unfoldable pub init_timer : (ℕ → ℕ) → (S → Bool) → Setup F S → Result (Setup F S)
  init_timer reading running s = do
    (base, s') ←
        add_region "rtc" b.rtc_mmio 8 as_is
          (λ base.
            some (
              on_part (λ d. d.clock) (λ e d. record d { clock = e }) (rtc_io_handler reading base)))
          s
    handlers' ← add_alarm_handle (timer_intr running) s'.handlers
    ok (record s' { handlers = handlers' })

  unfoldable pub init_vga : Setup F S → Result (Setup F S)
  init_vga s = do
    (ctl, s') ←
        add_region "vgactl" b.vga_ctl_mmio 8
          (λ base space. write_le 4 space base (bit_or (u32 (b.screen_w * 2 ^ 16)) b.screen_h))
          no_callback s
    (vmem, s'') ← add_region "vmem" b.fb_addr (screen_size b) as_is no_callback s'
    ok (record s'' {
      vgactl_port_base = ctl;
      space = if b.vga_show_screen then clear_space vmem (screen_size b) s''.space else s''.space;
    })

  unfoldable pub init_i8042 : Setup F S → Result (Setup F S)
  init_i8042 s = do
    (base, s') ←
        add_region "keyboard" b.i8042_data_mmio 4 (λ base space. write_le 4 space base key_none)
          (λ base. some (
            on_part (λ d. d.keyboard) (λ e d. record d { keyboard = e })
              (i8042_data_io_handler base)))
          s
    ok s'

  unfoldable pub init_audio : Setup F S → Result (Setup F S)
  init_audio s = do
    (base, s') ←
        add_region "audio" b.audio_ctl_mmio (4 * 6) as_is
          (λ base. some (
            on_part (λ d. d.audio) (λ e d. record d { audio = e })
              (audio_io_handler b.sb_size base)))
          s
    (sbuf, s'') ← add_region "audio-sbuf" b.sb_addr b.sb_size as_is no_callback s'
    ok s''

  -- `image` is what fopen gives, `none` for NULL.
  unfoldable pub init_sdcard : CardFile F → Option F → Setup F S → Result (Setup F S)
  init_sdcard f image s = do
    (base, s') ←
        add_region "sdhci" b.sdcard_ctl_mmio 0x80 as_is
          (λ base.
            some
              (on_part (λ d. d.sdcard) (λ e d. record d { sdcard = e }) (sdcard_io_handler f base)))
          s
    guard (ltb c_size (2 ^ 12)) (panic "shoule be fit in 12 bits")
    ok (record s' {
      devices = record s'.devices { sdcard = record s'.devices.sdcard { fp = image } };
    })

  -- IFDEF.
  abbrev ifdef : Bool → (Setup F S → Result (Setup F S)) → Setup F S → Result (Setup F S)
  ifdef here init s = if here then init s else ok s

  -- `init_disk` has an empty body.
  unfoldable pub init_device :
      (ℕ → ℕ) → (S → Bool) → CardFile F → Option F → Setup F S → Result (Setup F S)
  init_device reading running f image s = do
    s1 ← ifdef b.has_serial init_serial (init_map s)
    s2 ← ifdef b.has_timer (init_timer reading running) s1
    s3 ← ifdef cfg.has_vga init_vga s2
    s4 ← ifdef cfg.has_keyboard init_i8042 s3
    s5 ← ifdef b.has_audio init_audio s4
    ifdef b.has_sdcard (init_sdcard f image) s5
