-- ===== src/Tests/Memory.antt =====
-- Loads and stores of the small build.
use my_oscpu.Base.{ℕ, ◌+◌, ◌^◌, ◌≡◌, refl, arith, true, ok, err, undefined}
use my_oscpu.Memory.Host.{word, half}
use my_oscpu.Memory.Paddr.{Memory, paddr_read, paddr_write}
use my_oscpu.Memory.Range.{in_pmem, in_pmem_iff-bounds}
use my_oscpu.Memory.Access.{Inside, paddr_read-paddr_write, paddr_read-straddling}
use my_oscpu.Tests.Data.{small, small-IsSound, memory}

Inside-small : Inside small (2 ^ 31 + 8) 4
unfolding in_pmem
Inside-small = record { is_len = word; word = omega arith; starts = refl; ends = omega arith }

paddr_read-paddr_write_example :
    (m : Memory ℕ) × (paddr_write small (2 ^ 31 + 8) 4 305419896 memory ≡ ok m)
    × (paddr_read small (2 ^ 31 + 8) 4 m ≡ ok (305419896, m))
paddr_read-paddr_write_example =
    let (m, w, b, r, f) =
      paddr_read-paddr_write small small-IsSound memory (2 ^ 31 + 8) 4 305419896 Inside-small in
    (m, w, r)

paddr_read-straddling_example : paddr_read small (2 ^ 31 + 4095) 2 memory ≡ err undefined
unfolding in_pmem
paddr_read-straddling_example =
    paddr_read-straddling small small-IsSound memory (2 ^ 31 + 4095) 2 half (omega arith) refl
      (omega arith)

in_pmem_iff-bounds_example : in_pmem small (2 ^ 31 + 4095) ≡ true
in_pmem_iff-bounds_example =
    (in_pmem_iff-bounds small (2 ^ 31 + 4095) small-IsSound (omega arith)).1 (omega arith)
      (omega arith)
