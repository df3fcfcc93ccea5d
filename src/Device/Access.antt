-- ===== src/Device/Access.antt =====
-- An access inside a region (nemu/src/device/io/map.c): its callback runs around a load or a store of the arena.
use my_oscpu.Base.{ℕ, ◌+◌, ◌-◌, ◌≤◌, ◌≡◌, refl, true, false, ◌&&◌, leb, some, ok, le→leb}
use my_oscpu.Config.{Config}
use my_oscpu.Memory.Bytes.{read_le, write_le}
use my_oscpu.Memory.Host.{host_read-inside, host_write-inside, IsLen, byte, half, word}
use my_oscpu.Device.Map.{Io, IoMap, map_read, map_write, check_bound, invoke_callback, io_space_max}

len_fits : {len : ℕ} → IsLen len → (leb 1 len && leb len 8) ≡ true
len_fits byte = refl
len_fits half = refl
len_fits word = refl

module _ {D : Type 0} (cfg : Config) (m : IoMap D) (addr : ℕ) {len : ℕ} (l : IsLen len) where
  module _ (low : m.low ≤ addr) (high : addr ≤ m.high) where
    pub map_read-inside :
        (io io' : Io D)
        → invoke_callback m.callback (addr - m.low) len false io ≡ ok io'
        → m.space + (addr - m.low) + len ≤ io_space_max
        → map_read cfg addr len (some m) io
          ≡ ok (read_le len io'.space (m.space + (addr - m.low)), io')
    unfolding map_read check_bound
    map_read-inside io io' called inside =
        rw (len_fits l, le→leb addr m.high high, le→leb m.low addr low, called)
          (rw (host_read-inside cfg io_space_max io'.space (m.space + (addr - m.low)) l inside)
            refl)

    pub map_write-inside :
        (v : ℕ) (io : Io D)
        → m.space + (addr - m.low) + len ≤ io_space_max
        → map_write cfg addr len v (some m) io
          ≡ invoke_callback m.callback
              (addr - m.low)
              len
              true
              (record io { space = write_le len io.space (m.space + (addr - m.low)) v })
    unfolding map_write check_bound
    map_write-inside v io inside =
        rw (len_fits l, le→leb addr m.high high, le→leb m.low addr low)
          (rw (host_write-inside cfg io_space_max io.space (m.space + (addr - m.low)) v l inside)
            refl)
