-- ===== src/Am/Ioe.antt =====
-- abstract-machine/am/src/platform/nemu: `putch` of trm.c, and the devices of ioe (timer.c, input.c, gpu.c, audio.c),
-- over the accesses of abstract-machine/am/src/riscv/riscv.h, which are the emulator's. The addresses are those of
-- abstract-machine/am/src/platform/nemu/include/nemu.h.
use my_oscpu.Base.{
  ℕ, ◌+◌, ◌*◌, ◌/◌, ◌^◌, Bool, true, false, not, ◌==◌, bit_and, u32, Result, ok, ◌>>=◌,
}
use my_oscpu.Config.{Config}
use my_oscpu.Memory.Paddr.{Memory, paddr_read, paddr_write}

abbrev pub device_base : ℕ
device_base = 0xa0000000

abbrev pub serial_port : ℕ
serial_port = device_base + 0x3f8

abbrev pub kbd_addr : ℕ
kbd_addr = device_base + 0x60

abbrev pub rtc_addr : ℕ
rtc_addr = device_base + 0x48

abbrev pub vgactl_addr : ℕ
vgactl_addr = device_base + 0x100

abbrev pub audio_addr : ℕ
audio_addr = device_base + 0x200

pub record Keybrd : Type 0 where
  pub keydown : Bool
  pub keycode : ℕ

pub record GpuConfig : Type 0 where
  pub present : Bool
  pub has_accel : Bool
  pub width : ℕ
  pub height : ℕ
  pub vmemsz : ℕ

pub record AudioConfig : Type 0 where
  pub present : Bool
  pub bufsize : ℕ

pub record AudioCtrl : Type 0 where
  pub freq : ℕ
  pub channels : ℕ
  pub samples : ℕ

module _ {D : Type 0} (cfg : Config) where
  -- A load or a store of the guest.
  unfoldable pub inl : ℕ → Memory D → Result (ℕ × Memory D)
  inl addr m = paddr_read cfg addr 4 m

  unfoldable pub outl : ℕ → ℕ → Memory D → Result (Memory D)
  outl addr data_ m = paddr_write cfg addr 4 data_ m

  unfoldable pub outb : ℕ → ℕ → Memory D → Result (Memory D)
  outb addr data_ m = paddr_write cfg addr 1 data_ m

  unfoldable pub putch : ℕ → Memory D → Result (Memory D)
  putch ch m = outb serial_port ch m

  unfoldable pub am_timer_uptime : Memory D → Result (ℕ × Memory D)
  am_timer_uptime m = do
    (high, m1) ← inl (rtc_addr + 4) m
    (low, m2) ← inl rtc_addr m1
    ok (high * 2 ^ 32 + low, m2)

  unfoldable pub am_input_keybrd : Memory D → Result (Keybrd × Memory D)
  am_input_keybrd m = do
    (am_scancode, m') ← inl kbd_addr m
    ok (
      record {
        keydown = not (bit_and am_scancode 0x8000 == 0);
        keycode = bit_and am_scancode 0xffff7fff;
      },
      m',
    )

  unfoldable pub am_gpu_config : Memory D → Result (GpuConfig × Memory D)
  am_gpu_config m = do
    (size, m1) ← inl vgactl_addr m
    (size', m2) ← inl vgactl_addr m1
    let screen_width = size / 2 ^ 16
    let screen_height = bit_and size' 0xffff
    ok (
      record {
        present = true;
        has_accel = false;
        width = screen_width;
        height = screen_height;
        vmemsz = u32 (u32 (screen_width * screen_height) * 4);
      },
      m2,
    )

  unfoldable pub am_audio_config : Memory D → Result (AudioConfig × Memory D)
  am_audio_config m = do
    (size, m') ← inl (audio_addr + 0x0c) m
    ok (record { present = true; bufsize = size }, m')

  unfoldable pub am_audio_ctrl : AudioCtrl → Memory D → Result (Memory D)
  am_audio_ctrl ctrl m = do
    m1 ← outl (audio_addr + 0x00) ctrl.freq m
    m2 ← outl (audio_addr + 0x04) ctrl.channels m1
    m3 ← outl (audio_addr + 0x08) ctrl.samples m2
    outl (audio_addr + 0x10) 1 m3

  unfoldable pub am_audio_status : Memory D → Result (ℕ × Memory D)
  am_audio_status m = inl (audio_addr + 0x14) m
