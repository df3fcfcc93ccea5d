-- ===== src/Klib/Stdlib.antt =====
-- abstract-machine/klib/src/stdlib.c for a 32-bit target, where `unsigned long int` and `size_t` have 32
-- bits. An int is its 32-bit pattern; arithmetic on it that overflows is undefined.
pub mod Alloc
pub mod Numbers
use my_oscpu.Base.{
  ℕ, zero, suc, ◌+◌, ◌-◌, ◌*◌, ◌/◌, ◌%◌, ◌^◌, Bool, true, false, ◌&&◌, not, ◌==◌, ltb, leb,
  if◌then◌else◌, Result, ok, err, panic, undefined, out_of_fuel, ◌>>=◌, ◌>>◌, guard, u32, is_neg32,
  neg32,
}
use my_oscpu.Memory.Bytes.{Bytes}
use my_oscpu.Klib.Str.{memset}

-- `rand`: the value and the next `next`.
unfoldable pub rand : ℕ → ℕ × ℕ
rand next = let next' = u32 (next * 1103515245 + 12345) in (next' / 65536 % 32768, next')

unfoldable pub srand : ℕ → ℕ
srand seed = u32 seed

-- -INT_MIN overflows.
unfoldable pub abs : ℕ → Result ℕ
abs x = if x == 2 ^ 31 then err undefined else if is_neg32 x then ok (neg32 x) else ok x

abbrev pub is_digit : ℕ → Bool
is_digit c = leb b'0' c && leb c b'9'

-- The second loop of `atoi`. The sum is formed before '0' is taken off.
unfoldable pub atoi_digits : ℕ → Bytes → ℕ → ℕ → Result ℕ
atoi_digits zero mem nptr x = err out_of_fuel
atoi_digits (suc fuel) mem nptr x =
    let rest = atoi_digits fuel mem (nptr + 1) (x * 10 + mem nptr - b'0') in
    if is_digit (mem nptr)
    then (if ltb (x * 10 + mem nptr) (2 ^ 31) then rest else err undefined)
    else ok x

-- The first loop.
unfoldable pub atoi_spaces : ℕ → Bytes → ℕ → Result ℕ
atoi_spaces zero mem nptr = err out_of_fuel
atoi_spaces (suc fuel) mem nptr =
    let rest = atoi_spaces fuel mem (nptr + 1) in
    if mem nptr == b' ' then rest else atoi_digits (suc fuel) mem nptr 0

unfoldable pub atoi : ℕ → Bytes → ℕ → Result ℕ
unfolding atoi_spaces atoi_digits
atoi fuel mem nptr = atoi_spaces fuel mem nptr

-- `ROUNDUP(a, 8)`.
abbrev pub roundup : ℕ → ℕ
roundup a = u32 (a + 7) / 8 * 8

-- `heap`, `is_init`, `addr` and the memory.
pub record Heap : Type 0 where
  pub start : ℕ
  pub end_ : ℕ
  pub is_init : Bool
  pub addr : ℕ
  pub mem : Bytes

abbrev pub init_addr : Heap → Heap
init_addr h = record h { is_init = true; addr = if h.is_init then h.addr else roundup h.start }

-- `malloc`: the pointer, 0 for NULL.
unfoldable pub malloc : ℕ → Heap → Result (ℕ × Heap)
malloc size h =
    let h' = init_addr h in
    let size' = roundup size in
    let addr' = u32 (h'.addr + size') in
    if size == 0
    then ok (0, h)
    else guard (leb h.start addr' && ltb addr' h.end_) (panic "assert: heap")
      >> (memset h'.mem h'.addr 0 size' >>= λ mem'.
          ok (h'.addr, record h' { addr = addr'; mem = mem' }))

-- `free` does nothing.
unfoldable pub free : ℕ → Heap → Heap
free ptr h = h
