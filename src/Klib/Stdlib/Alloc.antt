-- ===== src/Klib/Stdlib/Alloc.antt =====
-- The blocks that `malloc` gives.
use my_oscpu.Base.{
  ℕ, ◌+◌, ◌%◌, ◌^◌, ◌≤◌, ◌<◌, ◌≡◌, ◌⊎◌, refl, arith, true, false, err, panic, ◌==◌, ltb, leb, ◌&&◌,
  ok, u32,
}
use my_oscpu.Klib.Str.Copy.{memset_lem}
use my_oscpu.Klib.Stdlib.{Heap, malloc, roundup, init_addr}

-- The heap lies within 32 bits above address 0, and the next free address in it.
pub record IsValid (h : Heap) : Type 0 where
  pub above : 8 ≤ h.start
  pub room : h.start + 8 ≤ h.end_
  pub word : h.end_ < 2 ^ 32
  pub free : h.is_init ≡ true → (h.start ≤ h.addr) × (h.addr < h.end_) × (h.addr % 8 ≡ 0)

-- A block of `size` bytes at `p`, and the heap behind it.
pub record IsBlock (h : Heap) (size p : ℕ) (h' : Heap) : Type 0 where
  pub inside : (h.start ≤ p) × (p + size ≤ h'.addr) × (h'.addr < h.end_)
  pub aligned : p % 8 ≡ 0
  pub behind : h.is_init ≡ true → h.addr ≤ p
  pub zeroed : (k : ℕ) → k < size → h'.mem (p + k) ≡ 0
  pub kept : (i : ℕ) → (i < p) ⊎ (h'.addr ≤ i) → h'.mem i ≡ h.mem i

init_addr_free :
    (h : Heap)
    → IsValid h
    → (h.start ≤ (init_addr h).addr) × ((init_addr h).addr ≤ h.end_) × ((init_addr h).addr % 8 ≡ 0)
init_addr_free h v = ground (arith, v.free, v.room, v.word)

-- `malloc` of at least one byte, of a size that does not wrap around. If the block ends before the
-- heap's end, `malloc` returns it: it lies inside the heap, behind all blocks before it, is aligned to 8
-- bytes and zero, no other byte changes, and the heap is valid for the next call. Otherwise the
-- assertion fails. Both differ from the comment above `malloc`, which promises memory that is not
-- initialized, and NULL on an error.
pub malloc-IsBlock :
    (size : ℕ) (h : Heap)
    → IsValid h
    → 1 ≤ size
    → h.end_ + size + 7 < 2 ^ 32
    → ((init_addr h).addr + roundup size < h.end_
        → (p : ℕ) × (h' : Heap) × (malloc size h ≡ ok (p, h'))
          × IsBlock h size p h'
          × IsValid h'
          × (h'.is_init ≡ true))
      × (h.end_ ≤ (init_addr h).addr + roundup size → malloc size h ≡ err (panic "assert: heap"))
unfolding malloc
malloc-IsBlock size h v one fits =
    let a : ℕ = (init_addr h).addr in
    let (low, high, even) = init_addr_free h v in
    let (mem', run, fills, frame) =
      memset_lem h.mem a 0 (roundup size) (omega (arith, v.above, low)) in
    let some_bytes : (size == 0) ≡ false = ground (arith, one) in
    (
      λ room.
          let sum : u32 (a + roundup size) ≡ a + roundup size = omega (arith, room, v.word) in
          let test : (leb h.start (a + roundup size) && ltb (a + roundup size) h.end_) ≡ true =
            ground (arith, room, low) in
          (
            a,
            record (init_addr h) { addr = u32 (a + roundup size); mem = mem' },
            rw (some_bytes, sum, test, run),
            record {
              inside = (low, omega (arith, fits), omega (arith, room));
              aligned = even;
              behind = λ e. ground (arith, e);
              zeroed = λ k l. fills k (omega (arith, fits));
              kept = λ i o. frame i (ground (arith, o));
            },
            record {
              above = v.above;
              room = v.room;
              word = v.word;
              free = λ e. (omega (arith, low), omega (arith, room), omega (arith, even));
            },
            refl,
          ),
      λ full.
          let sum : u32 (a + roundup size) ≡ a + roundup size = omega (arith, fits, high) in
          let test : (leb h.start (a + roundup size) && ltb (a + roundup size) h.end_) ≡ false =
            ground (arith, full) in
          rw (some_bytes, sum, test),
    )
