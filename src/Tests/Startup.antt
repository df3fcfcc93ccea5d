-- ===== src/Tests/Startup.antt =====
-- The initialization of the devices with the addresses of nemu/src/device/Kconfig, every device enabled.
use my_oscpu.Base.{ℕ, ◌+◌, ◌*◌, ◌≡◌, refl, arith, Bool, true, false, [], none, Result, ok, err}
use my_oscpu.Memory.Valid.{Ensures}
use my_oscpu.Memory.Range.{in_pmem}
use my_oscpu.Device.Map.{new_space}
use my_oscpu.Device.Mmio.{add_mmio_map, overlaps_any}
use my_oscpu.Device.Alarm.{add_alarm_handle}
use my_oscpu.Device.Sdcard.{CardFile}
use my_oscpu.Device.Init.{
  Board, Devices, Setup, screen_size, add_region, init_map, init_serial, init_timer, init_vga,
  init_i8042, init_audio, init_sdcard, init_device,
}
use my_oscpu.Device.Init.Regions.{IsPlaced, IsReady, init_device-IsReady}
use my_oscpu.Tests.Data.{small}

-- `screen_w` by `screen_h` pixels.
abbrev kconfig : ℕ → ℕ → Board
kconfig screen_w screen_h = record {
  has_serial = true;
  has_timer = true;
  has_audio = true;
  has_sdcard = true;
  vga_show_screen = true;
  serial_mmio = 0xa00003f8;
  rtc_mmio = 0xa0000048;
  vga_ctl_mmio = 0xa0000100;
  fb_addr = 0xa1000000;
  i8042_data_mmio = 0xa0000060;
  audio_ctl_mmio = 0xa0000200;
  sb_addr = 0xa1200000;
  sb_size = 0x10000;
  sdcard_ctl_mmio = 0xa3000000;
  screen_w = screen_w;
  screen_h = screen_h;
}

abbrev devices : Devices ℕ
devices = record {
  serial = record { written = [] };
  clock = record { boot_time = 0; calls = 0 };
  keyboard = record { keymap = λ i. 0; key_queue = λ i. 0; key_f = 0; key_r = 0 };
  audio = record { freq = 0; channels = 0; samples = 0; size = 0; opened = false; sbuf_count = 0 };
  sdcard = record {
    fp = none;
    blkcnt = 0;
    blk_addr = 0;
    addr = 0;
    write_cmd = false;
    read_ext_csd = false;
  };
}

abbrev setup : Setup ℕ Bool
setup = record {
  space = λ i. 170;
  p_space = 0;
  devices = devices;
  maps = [];
  handlers = [];
  vgactl_port_base = 0;
}

abbrev image_file : CardFile ℕ
image_file = record { fseek = λ p f. p; fread_word = λ v f. (f, f + 4); fwrite_word = λ v f. f + 4 }

abbrev started : ℕ → ℕ → Result (Setup ℕ Bool)
started w h = init_device small (kconfig w h) (λ i. i) (λ s. s) image_file none setup

abbrev p_space_of : Result (Setup ℕ Bool) → ℕ
p_space_of (ok s) = s.p_space
p_space_of (err e) = 0

-- Both sizes of the screen leave room in the arena.
started_small : p_space_of (started 400 300) ≡ 140 * 4096
unfolding init_device init_map init_serial init_timer init_vga init_i8042 init_audio init_sdcard
    add_region new_space add_mmio_map add_alarm_handle in_pmem overlaps_any screen_size
started_small = refl

started_large : p_space_of (started 800 600) ≡ 491 * 4096
unfolding init_device init_map init_serial init_timer init_vga init_i8042 init_audio init_sdcard
    add_region new_space add_mmio_map add_alarm_handle in_pmem overlaps_any screen_size
started_large = refl

kconfig-IsPlaced : IsPlaced (kconfig 400 300)
unfolding screen_size
kconfig-IsPlaced = record {
  serial = omega arith;
  rtc = omega arith;
  vgactl = omega arith;
  vmem = omega arith;
  keyboard = omega arith;
  audio = omega arith;
  sbuf = omega arith;
  sdcard = omega arith;
}

init_device-IsReady_example : Ensures IsReady (started 400 300)
init_device-IsReady_example =
    init_device-IsReady small (kconfig 400 300) kconfig-IsPlaced (λ i. i) (λ s. s) image_file none
      setup refl
