-- ===== src/Device/Keyboard.antt =====
-- nemu/src/device/keyboard.c: the queue of key codes between the host's events and the guest. The keymap that
-- `init_keymap` fills from SDL's scancodes is a part of the state.
pub mod Queue
use my_oscpu.Base.{
  ℕ, ◌+◌, ◌*◌, ◌%◌, Bool, true, false, ◌&&◌, not, ◌==◌, if◌then◌else◌, bit_or, Result, ok, err,
  panic, ◌>>=◌, ◌>>◌, guard,
}
use my_oscpu.Memory.Bytes.{write_le}
use my_oscpu.Device.Map.{Io, Callback}

abbrev pub key_queue_len : ℕ
key_queue_len = 1024

abbrev pub keydown_mask : ℕ
keydown_mask = 0x8000

abbrev pub key_none : ℕ
key_none = 0

pub record Keyboard : Type 0 where
  pub keymap : ℕ → ℕ
  pub key_queue : ℕ → ℕ
  pub key_f : ℕ
  pub key_r : ℕ

-- The assertion stands behind the write.
unfoldable pub key_enqueue : ℕ → Keyboard → Result Keyboard
key_enqueue am_scancode k =
    let key_r' = (k.key_r + 1) % key_queue_len in
    guard (not (key_r' == k.key_f)) (panic "key queue overflow!")
    >> ok (record k {
      key_queue = λ i. if i == k.key_r then am_scancode else k.key_queue i;
      key_r = key_r';
    })

unfoldable pub key_dequeue : Keyboard → ℕ × Keyboard
key_dequeue k =
    if not (k.key_f == k.key_r)
    then (k.key_queue k.key_f, record k { key_f = (k.key_f + 1) % key_queue_len })
    else (key_none, k)

-- `running` is that the emulator's state is NEMU_RUNNING.
unfoldable pub send_key : Bool → ℕ → Bool → Keyboard → Result Keyboard
send_key running scancode is_keydown k =
    if running && not (k.keymap scancode == key_none)
    then key_enqueue (bit_or (k.keymap scancode) (if is_keydown then keydown_mask else 0)) k
    else ok k

-- The handler of the data port at `base` in the arena.
unfoldable pub i8042_data_io_handler : ℕ → Callback Keyboard
i8042_data_io_handler base offset len is_write io = do
  guard (not is_write) (panic "assert(!is_write)")
  guard (offset == 0) (panic "assert(offset == 0)")
  let (key, k) = key_dequeue io.dev
  ok (record { space = write_le 4 io.space base key; dev = k })
