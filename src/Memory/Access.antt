-- ===== src/Memory/Access.antt =====
-- What guest loads and stores do to physical memory (nemu/src/memory/paddr.c).
use my_oscpu.Base.{
  ℕ, ◌+◌, ◌-◌, ◌%◌, ◌^◌, ◌≤◌, ◌<◌, ◌≡◌, ◌⊎◌, refl, ap, ◌∙◌, arith, true, ok, err, undefined,
}
use my_oscpu.Config.{Config, IsSound}
use my_oscpu.Memory.Bytes.{read_le, write_le, read_le-write_le, write_le_frame, read_le_ext}
use my_oscpu.Memory.Host.{IsLen, host_read-inside, host_write-inside, host_read-outside}
use my_oscpu.Memory.Range.{in_pmem, host_to_guest-guest_to_host}
use my_oscpu.Memory.Paddr.{Memory, paddr_read, paddr_write}

-- The access [addr, addr + len) starts in physical memory and ends there.
pub record Inside (cfg : Config) (addr len : ℕ) : Type 0 where
  pub is_len : IsLen len
  pub word : addr < 2 ^ 32
  pub starts : in_pmem cfg addr ≡ true
  pub ends : addr - cfg.mbase + len ≤ cfg.msize

module _ {D : Type 0} (cfg : Config) (sound : IsSound cfg) (m : Memory D) where
  pub paddr_read-Inside :
      (addr len : ℕ)
      → Inside cfg addr len
      → paddr_read cfg addr len m ≡ ok (read_le len m.pmem (addr - cfg.mbase), m)
  unfolding paddr_read
  paddr_read-Inside addr len i = rw (
    i.starts,
    (host_to_guest-guest_to_host cfg addr sound i.word i.starts).0,
    host_read-inside cfg cfg.msize m.pmem (addr - cfg.mbase) i.is_len i.ends,
  )

  pub paddr_write-Inside :
      (addr len v : ℕ)
      → Inside cfg addr len
      → paddr_write cfg addr len v m
        ≡ ok (record m { pmem = write_le len m.pmem (addr - cfg.mbase) v })
  unfolding paddr_write
  paddr_write-Inside addr len v i = rw (
    i.starts,
    (host_to_guest-guest_to_host cfg addr sound i.word i.starts).0,
    host_write-inside cfg cfg.msize m.pmem (addr - cfg.mbase) v i.is_len i.ends,
  )

module _ {D : Type 0} (cfg : Config) (sound : IsSound cfg) (m : Memory D) where
  -- A store of `len` bytes inside physical memory succeeds; a load of the same bytes then gives the
  -- stored value modulo 256 ^ len, a load of bytes that do not meet them gives what it gave before,
  -- and no device sees either.
  pub paddr_read-paddr_write :
      (addr len v : ℕ)
      → Inside cfg addr len
      → (m' : Memory D) × (paddr_write cfg addr len v m ≡ ok m')
        × (m'.bus ≡ m.bus)
        × (paddr_read cfg addr len m' ≡ ok (v % 256 ^ len, m'))
        × ((a n : ℕ)
            → Inside cfg a n
            → (a + n ≤ addr) ⊎ (addr + len ≤ a)
            → (w : ℕ) × (paddr_read cfg a n m ≡ ok (w, m)) × (paddr_read cfg a n m' ≡ ok (w, m')))
  paddr_read-paddr_write addr len v i = (
    m',
    paddr_write-Inside cfg sound m addr len v i,
    refl,
    paddr_read-Inside cfg sound m' addr len i
        ∙ ap (λ w. ok (w, m')) (read_le-write_le len m.pmem o v),
    λ a n j apart. (
      read_le n m.pmem (a - cfg.mbase),
      paddr_read-Inside cfg sound m a n j,
      paddr_read-Inside cfg sound m' a n j
          ∙ ap (λ w. ok (w, m'))
              (read_le_ext n m'.pmem m.pmem (a - cfg.mbase)
                (λ k p q. write_le_frame len m.pmem o v k (frame a n k j apart p q))),
    ),
  )
    where
      o : ℕ
      o = addr - cfg.mbase

      m' : Memory D
      m' = record m { pmem = write_le len m.pmem o v }

      frame :
          (a n k : ℕ)
          → Inside cfg a n
          → (a + n ≤ addr) ⊎ (addr + len ≤ a)
          → a - cfg.mbase ≤ k
          → k < a - cfg.mbase + n
          → (k < o) ⊎ (o + len ≤ k)
      frame a n k j apart p q =
          unfold in_pmem in ground (arith, sound, i.starts, j.starts, i.word, j.word)

  -- Only the first byte of an access is tested: one that starts in physical memory and ends behind it
  -- is no panic, it reads outside the array.
  pub paddr_read-straddling :
      (addr len : ℕ)
      → IsLen len
      → addr < 2 ^ 32
      → in_pmem cfg addr ≡ true
      → cfg.msize < addr - cfg.mbase + len
      → paddr_read cfg addr len m ≡ err undefined
  unfolding paddr_read
  paddr_read-straddling addr len l w starts ends = rw (
    starts,
    (host_to_guest-guest_to_host cfg addr sound w starts).0,
    host_read-outside cfg cfg.msize m.pmem (addr - cfg.mbase) l ends,
  )
