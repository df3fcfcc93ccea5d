-- ===== src/Memory/Host.antt =====
-- nemu/include/memory/host.h: loads and stores of 1, 2 and 4 bytes in a host array. The host is
-- little-endian, and an access that leaves the array is undefined.
use my_oscpu.Base.{
  ℕ, ◌+◌, ◌^◌, ◌≤◌, ◌<◌, ◌≡◌, arith, ◌==◌, leb, if◌then◌else◌, Result, ok, err, panic, undefined,
}
use my_oscpu.Config.{Config}
use my_oscpu.Memory.Bytes.{Bytes, IsBytes, read_le, write_le, read_le-lt}
use my_oscpu.Memory.Bytes.{write_le-IsBytes}

-- `*(uintN_t *)addr` for N = 8 n, in an array of `size` bytes.
unfoldable pub load : ℕ → ℕ → Bytes → ℕ → Result ℕ
load n size b o = if leb (o + n) size then ok (read_le n b o) else err undefined

unfoldable pub save : ℕ → ℕ → Bytes → ℕ → ℕ → Result Bytes
save n size b o v = if leb (o + n) size then ok (write_le n b o v) else err undefined

module _ (cfg : Config) (size : ℕ) (b : Bytes) (o : ℕ) where
  unfoldable pub host_read : ℕ → Result ℕ
  unfolding load
  host_read len =
      if len == 1
      then load 1 size b o
      else if len == 2
      then load 2 size b o
      else if len == 4
      then load 4 size b o
      else if cfg.rt_check
      then err (panic "assert(0)")
      else ok 0

  unfoldable pub host_write : ℕ → ℕ → Result Bytes
  unfolding save
  host_write len v =
      if len == 1
      then save 1 size b o v
      else if len == 2
      then save 2 size b o v
      else if len == 4
      then save 4 size b o v
      else if cfg.rt_check
      then err (panic "assert(0)")
      else ok b

-- The lengths that the loads and stores of the guest use.
pub data IsLen : ℕ → Type 0 where
  byte : IsLen 1
  half : IsLen 2
  word : IsLen 4

module _ (cfg : Config) (size : ℕ) (b : Bytes) (o : ℕ) where
  pub host_read-inside :
      {len : ℕ} → IsLen len → o + len ≤ size → host_read cfg size b o len ≡ ok (read_le len b o)
  unfolding host_read
  host_read-inside byte h = ground arith
  host_read-inside half h = ground arith
  host_read-inside word h = ground arith

  pub host_write-inside :
      {len : ℕ} (v : ℕ)
      → IsLen len
      → o + len ≤ size
      → host_write cfg size b o len v ≡ ok (write_le len b o v)
  unfolding host_write
  host_write-inside v byte h = ground arith
  host_write-inside v half h = ground arith
  host_write-inside v word h = ground arith

  pub host_read-outside :
      {len : ℕ} → IsLen len → size < o + len → host_read cfg size b o len ≡ err undefined
  unfolding host_read
  host_read-outside byte h = ground arith
  host_read-outside half h = ground arith
  host_read-outside word h = ground arith

  -- Whatever is read is a byte, a half word or a word.
  pub host_read-lt : (len : ℕ) {v : ℕ} → IsBytes b → host_read cfg size b o len ≡ ok v → v < 2 ^ 32
  unfolding host_read
  host_read-lt len h e = ground (arith, read_le-lt 1 b o h, read_le-lt 2 b o h, read_le-lt 4 b o h)

  pub host_write-IsBytes :
      (len v : ℕ) {c : Bytes} → IsBytes b → host_write cfg size b o len v ≡ ok c → IsBytes c
  unfolding host_write
  host_write-IsBytes len v h e i = ground (
    arith,
    h i,
    write_le-IsBytes 1 b o v h i,
    write_le-IsBytes 2 b o v h i,
    write_le-IsBytes 4 b o v h i,
  )
