-- ===== src/Device/Vga.antt =====
-- `vga_update_screen` of nemu/src/device/vga.c: the picture is shown when the guest has set the sync register,
-- the second word at `base` in the arena. Showing it (`update_screen`, SDL) is a parameter.
use my_oscpu.Base.{ℕ, ◌+◌, ◌==◌, if◌then◌else◌}
use my_oscpu.Memory.Bytes.{Bytes, read_le, write_le}
use my_oscpu.Device.Map.{Io}

unfoldable pub vga_update_screen : {D : Type 0} → (Bytes → D → D) → ℕ → Io D → Io D
vga_update_screen update_screen base io =
    if read_le 4 io.space (base + 4) == 0
    then io
    else record { space = write_le 4 io.space (base + 4) 0; dev = update_screen io.space io.dev }
