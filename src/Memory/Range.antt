-- ===== src/Memory/Range.antt =====
-- nemu/include/memory/paddr.h and the address conversions of nemu/src/memory/paddr.c.
use my_oscpu.Base.{
  ℕ, ◌+◌, ◌-◌, ◌^◌, ◌≤◌, ◌<◌, ◌≡◌, arith, Bool, true, ltb, leb, if◌then◌else◌, add32, sub32, Result,
  ok, err, undefined,
}
use my_oscpu.Config.{Config, IsSound}

module _ (cfg : Config) where
  abbrev pub pmem_left : ℕ
  pmem_left = cfg.mbase

  abbrev pub pmem_right : ℕ
  pmem_right = sub32 (add32 cfg.mbase cfg.msize) 1

  abbrev pub reset_vector : ℕ
  reset_vector = add32 pmem_left cfg.reset_offset

  -- The subtraction wraps, so that one comparison tests both ends.
  unfoldable pub in_pmem : ℕ → Bool
  in_pmem addr = ltb (sub32 addr cfg.mbase) cfg.msize

  -- The index into `pmem`; a pointer in front of the array is undefined.
  unfoldable pub guest_to_host : ℕ → Result ℕ
  guest_to_host paddr = if leb cfg.mbase paddr then ok (paddr - cfg.mbase) else err undefined

  unfoldable pub host_to_guest : ℕ → ℕ
  host_to_guest haddr = add32 haddr cfg.mbase

  -- The wrapped comparison holds exactly for the addresses between the two ends.
  pub in_pmem_iff-bounds :
      (addr : ℕ)
      → IsSound cfg
      → addr < 2 ^ 32
      → (in_pmem addr ≡ true → (cfg.mbase ≤ addr) × (addr < cfg.mbase + cfg.msize))
        × (cfg.mbase ≤ addr → addr < cfg.mbase + cfg.msize → in_pmem addr ≡ true)
  unfolding in_pmem
  in_pmem_iff-bounds addr s h = ground arith

  -- An address of physical memory has an offset below its size, and comes back from it.
  pub host_to_guest-guest_to_host :
      (addr : ℕ)
      → IsSound cfg
      → addr < 2 ^ 32
      → in_pmem addr ≡ true
      → (guest_to_host addr ≡ ok (addr - cfg.mbase))
        × (addr - cfg.mbase < cfg.msize)
        × (host_to_guest (addr - cfg.mbase) ≡ addr)
  unfolding in_pmem guest_to_host host_to_guest
  host_to_guest-guest_to_host addr s h p = ground arith
