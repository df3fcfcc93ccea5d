-- ===== src/Memory/Paddr.antt =====
-- nemu/src/memory/paddr.c and nemu/src/memory/vaddr.c: a guest access goes to physical memory or to a
-- device. The memory trace (CONFIG_MTRACE) only prints.
use my_oscpu.Base.{ℕ, if◌then◌else◌, Result, ok, err, panic, ◌>>=◌}
use my_oscpu.Config.{Config}
use my_oscpu.Memory.Bytes.{Bytes}
use my_oscpu.Memory.Host.{host_read, host_write}
use my_oscpu.Memory.Range.{in_pmem, guest_to_host}
use my_oscpu.Device.Map.{Bus, mmio_read, mmio_write}

-- `pmem` and all that a device access can change.
pub record Memory (D : Type 0) : Type 0 where
  pub pmem : Bytes
  pub bus : Bus D

module _ {D : Type 0} (cfg : Config) where
  unfoldable pub pmem_read : ℕ → ℕ → Memory D → Result ℕ
  pmem_read addr len m = do o ← guest_to_host cfg addr; host_read cfg cfg.msize m.pmem o len

  unfoldable pub pmem_write : ℕ → ℕ → ℕ → Memory D → Result (Memory D)
  pmem_write addr len data_ m = do
    o ← guest_to_host cfg addr
    b ← host_write cfg cfg.msize m.pmem o len data_
    ok (record m { pmem = b })

  unfoldable pub paddr_read : ℕ → ℕ → Memory D → Result (ℕ × Memory D)
  unfolding pmem_read
  paddr_read addr len m =
      if in_pmem cfg addr
      then (do v ← pmem_read addr len m; ok (v, m))
      else if cfg.device
      then (do (v, bus') ← mmio_read cfg addr len m.bus; ok (v, record m { bus = bus' }))
      else err (panic "address is out of bound of pmem")

  unfoldable pub paddr_write : ℕ → ℕ → ℕ → Memory D → Result (Memory D)
  unfolding pmem_write
  paddr_write addr len data_ m =
      if in_pmem cfg addr
      then pmem_write addr len data_ m
      else if cfg.device
      then (do bus' ← mmio_write cfg addr len data_ m.bus; ok (record m { bus = bus' }))
      else err (panic "address is out of bound of pmem")

  unfoldable pub vaddr_ifetch : ℕ → ℕ → Memory D → Result (ℕ × Memory D)
  vaddr_ifetch = paddr_read

  unfoldable pub vaddr_read : ℕ → ℕ → Memory D → Result (ℕ × Memory D)
  vaddr_read = paddr_read

  unfoldable pub vaddr_write : ℕ → ℕ → ℕ → Memory D → Result (Memory D)
  vaddr_write = paddr_write
