-- ===== src/Device/Serial.antt =====
-- nemu/src/device/serial.c: the serial port at `base` in the arena. What goes to the host's stderr is a list.
use my_oscpu.Base.{ℕ, ◌==◌, if◌then◌else◌, List, [], ◌∷◌, ◌++◌, ok, err, panic, ◌>>◌, guard}
use my_oscpu.Device.Map.{Callback}

pub record Serial : Type 0 where
  pub written : List ℕ

unfoldable pub serial_putc : ℕ → Serial → Serial
serial_putc ch s = record { written = s.written ++ ch ∷ [] }

unfoldable pub serial_io_handler : ℕ → Callback Serial
unfolding serial_putc
serial_io_handler base offset len is_write io =
    guard (len == 1) (panic "assert(len == 1)")
    >> (if offset == 0
        then (if is_write
            then ok (record io { dev = serial_putc (io.space base) io.dev })
            else err (panic "do not support read"))
        else err (panic "do not support offset"))
