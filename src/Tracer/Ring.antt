-- ===== src/Tracer/Ring.antt =====
-- The ring buffer of recent instructions in nemu/src/utils/tracer.c. A text is the list of its characters.
pub mod Recent
use my_oscpu.Base.{ℕ, zero, suc, ◌+◌, ◌-◌, ◌%◌, Bool, ◌==◌, ltb, if◌then◌else◌, List, [], ◌∷◌, take}

abbrev pub max_size_ring_buffer : ℕ
max_size_ring_buffer = 16

-- `size` is the number of texts inside, and `head` the index that is written next.
pub record RingBuffer : Type 0 where
  pub buffer : ℕ → List ℕ
  pub head : ℕ
  pub size : ℕ

-- `snprintf` cuts the text to the 128 characters of an entry, the NUL among them.
unfoldable pub write_ring_buffer : List ℕ → RingBuffer → RingBuffer
write_ring_buffer logbuf r = record {
  buffer = λ i. if i == r.head then take 127 logbuf else r.buffer i;
  head = (r.head + 1) % max_size_ring_buffer;
  size = if ltb r.size max_size_ring_buffer then r.size + 1 else r.size;
}

-- The lines of the loop, each with the mark of the error instruction. `index` does not go below 0, as 16
-- is added first.
unfoldable pub print_loop : ℕ → (ℕ → List ℕ) → ℕ → List (Bool × List ℕ)
print_loop zero buffer index = []
print_loop (suc n) buffer index =
    let index' = (index + max_size_ring_buffer - 1) % max_size_ring_buffer in
    (index' == 0, buffer index') ∷ print_loop n buffer index'

unfoldable pub print_ring_buffer : RingBuffer → List (Bool × List ℕ)
unfolding print_loop
print_ring_buffer r = print_loop r.size r.buffer r.head
