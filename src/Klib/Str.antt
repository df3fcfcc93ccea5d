-- ===== src/Klib/Str.antt =====
-- abstract-machine/klib/src/string.c over a memory of bytes. A pointer is an address, NULL is 0, and an
-- object does not wrap around the address space. `strlen` runs on fuel.
pub mod Copy
pub mod Text
pub mod Compare
use my_oscpu.Base.{
  ℕ, zero, suc, ◌+◌, ◌-◌, Bool, true, false, ◌&&◌, not, ◌==◌, ltb, if◌then◌else◌, Result, ok, err,
  panic, out_of_fuel, ◌>>=◌, ◌>>◌, guard, sub32, Fault,
}
use my_oscpu.Memory.Bytes.{Bytes, store}

abbrev null_assert : Fault
null_assert = panic "assert: NULL"

-- `p != NULL && q != NULL`.
abbrev pub both_set : ℕ → ℕ → Bool
both_set p q = not (p == 0) && not (q == 0)

unfoldable pub strlen_loop : ℕ → Bytes → ℕ → ℕ → Result ℕ
strlen_loop zero mem s len = err out_of_fuel
strlen_loop (suc fuel) mem s len =
    let rest = strlen_loop fuel mem s (len + 1) in if mem (s + len) == 0 then ok len else rest

unfoldable pub strlen : ℕ → Bytes → ℕ → Result ℕ
strlen fuel mem s = guard (not (s == 0)) null_assert >> strlen_loop fuel mem s 0

unfoldable pub memset_loop : ℕ → Bytes → ℕ → ℕ → Bytes
memset_loop zero mem ptr c = mem
memset_loop (suc n) mem ptr c = memset_loop n (store mem ptr c) (ptr + 1) c

unfoldable pub memset : Bytes → ℕ → ℕ → ℕ → Result Bytes
memset mem s c n = guard (not (s == 0)) null_assert >> ok (memset_loop n mem s c)

-- Back to front, from the ends of both areas.
unfoldable pub copy_back : ℕ → Bytes → ℕ → ℕ → Bytes
copy_back zero mem dst src = mem
copy_back (suc n) mem dst src = copy_back n (store mem (dst + n) (mem (src + n))) dst src

-- Front to back.
unfoldable pub copy_front : ℕ → Bytes → ℕ → ℕ → Bytes
copy_front zero mem dst src = mem
copy_front (suc n) mem dst src = copy_front n (store mem dst (mem src)) (dst + 1) (src + 1)

unfoldable pub memmove : Bytes → ℕ → ℕ → ℕ → Result Bytes
memmove mem dst src n =
    guard (both_set dst src) null_assert
    >> ok (
        if ltb src dst && ltb dst (src + n)
        then copy_back n mem dst src
        else copy_front n mem dst src)

unfoldable pub memcpy : Bytes → ℕ → ℕ → ℕ → Result Bytes
memcpy mem out in_ n = guard (both_set in_ out) null_assert >> ok (copy_front n mem out in_)

-- An int as its 32-bit pattern.
unfoldable pub memcmp_loop : ℕ → Bytes → ℕ → ℕ → ℕ
memcmp_loop zero mem p1 p2 = 0
memcmp_loop (suc n) mem p1 p2 =
    let rest = memcmp_loop n mem (p1 + 1) (p2 + 1) in
    if mem p1 == mem p2 then rest else sub32 (mem p1) (mem p2)

unfoldable pub memcmp : Bytes → ℕ → ℕ → ℕ → Result ℕ
memcmp mem s1 s2 n = guard (both_set s1 s2) null_assert >> ok (memcmp_loop n mem s1 s2)

unfoldable pub strcpy : ℕ → Bytes → ℕ → ℕ → Result Bytes
strcpy fuel mem dst src = do
  guard (both_set dst src) null_assert
  len ← strlen fuel mem src
  memmove mem dst src (len + 1)

-- The copy of a string of `len` bytes into `n`, padded or cut.
unfoldable pub copy_padded : Bytes → ℕ → ℕ → ℕ → ℕ → Result Bytes
copy_padded mem dst src len n =
    if ltb len n
    then (memmove mem dst src len >>= λ mem'. memset mem' (dst + len) 0 (n - len))
    else memmove mem dst src n

unfoldable pub strncpy : ℕ → Bytes → ℕ → ℕ → ℕ → Result Bytes
strncpy fuel mem dst src n = do
  guard (both_set dst src) null_assert
  len ← strlen fuel mem src
  copy_padded mem dst src len n

unfoldable pub strcat : ℕ → Bytes → ℕ → ℕ → Result Bytes
strcat fuel mem dst src = do
  guard (both_set dst src) null_assert
  len_dst ← strlen fuel mem dst
  len_src ← strlen fuel mem src
  memmove mem (dst + len_dst) src (len_src + 1)

unfoldable pub strcmp : ℕ → Bytes → ℕ → ℕ → Result ℕ
strcmp fuel mem s1 s2 = do
  guard (both_set s1 s2) null_assert
  len1 ← strlen fuel mem s1
  len2 ← strlen fuel mem s2
  result ← memcmp mem s1 s2 (if ltb len1 len2 then len1 else len2)
  ok (if result == 0 then sub32 len1 len2 else result)

unfoldable pub strncmp : Bytes → ℕ → ℕ → ℕ → Result ℕ
strncmp mem s1 s2 n = guard (both_set s1 s2) null_assert >> memcmp mem s1 s2 n
