-- ===== src/Tests/Klib.antt =====
-- The C library on a small memory: "hi" at 10, and "12" at 20.
use my_oscpu.Base.{
  ℕ, ◌+◌, ◌<◌, ◌≡◌, ◌≢◌, refl, arith, true, false, if◌then◌else◌, ◌==◌, ok, [], ◌∷◌,
}
use my_oscpu.Memory.Bytes.{Bytes, IsBytes}
use my_oscpu.Klib.Str.{memmove, memset, strcpy, strcat, strcmp}
use my_oscpu.Klib.Str.Copy.{memmove-Copies, memset_lem}
use my_oscpu.Klib.Str.Text.{IsString, strcpy-IsString, strcat-IsString}
use my_oscpu.Klib.Str.Compare.{strcmp_iff-SameBytes}
use my_oscpu.Klib.Stdlib.{Heap, malloc, atoi}
use my_oscpu.Klib.Stdlib.Alloc.{IsValid, malloc-IsBlock}
use my_oscpu.Klib.Stdlib.Numbers.{atoi_lem}

abbrev texts : Bytes
texts i =
    if i == 10
    then 104
    else if i == 11
    then 105
    else if i == 20
    then 49
    else if i == 21
    then 50
    else 0

texts-IsBytes : IsBytes texts
texts-IsBytes i = ground arith

hi-IsString : IsString texts 10 2
hi-IsString = record { set = λ e. omega arith; chars = λ k l e. ground (arith, l, e); nul = refl }

number-IsString : IsString texts 20 2
number-IsString = record {
  set = λ e. omega arith;
  chars = λ k l e. ground (arith, l, e);
  nul = refl;
}

-- The areas overlap.
memmove-Copies_example :
    (mem : Bytes) × (memmove texts 11 10 2 ≡ ok mem)
    × ((k : ℕ) → k < 2 → mem (11 + k) ≡ texts (10 + k))
memmove-Copies_example =
    let (mem, run, copied) =
      memmove-Copies texts 11 10 2 texts-IsBytes (λ e. omega arith) (λ e. omega arith) in
    (mem, run, copied.0)

memset_lem_example : (mem : Bytes) × (memset texts 10 263 2 ≡ ok mem)
memset_lem_example =
    let (mem, run, fills, frame) = memset_lem texts 10 263 2 (λ e. omega arith) in (mem, run)

strcpy-IsString_example : (mem : Bytes) × (strcpy 3 texts 11 10 ≡ ok mem) × IsString mem 11 2
strcpy-IsString_example =
    let (mem, run, string, copied) =
      strcpy-IsString 3 texts 11 10 2 texts-IsBytes (λ e. omega arith) hi-IsString (omega arith) in
    (mem, run, string)

strcat-IsString_example : (mem : Bytes) × (strcat 3 texts 10 20 ≡ ok mem) × IsString mem 10 4
strcat-IsString_example =
    let (mem, run, string, kept, moved) =
      strcat-IsString 3 texts 10 20 2 2 texts-IsBytes hi-IsString number-IsString (omega arith)
        (omega arith) in
    (mem, run, string)

strcmp_iff-SameBytes_example : (r : ℕ) × (strcmp 3 texts 10 20 ≡ ok r)
strcmp_iff-SameBytes_example =
    let (r, run, zero_same, same_zero) =
      strcmp_iff-SameBytes 3 texts 10 20 2 2 texts-IsBytes hi-IsString number-IsString (omega arith)
        (omega arith) (omega arith) in
    (r, run)

abbrev heap : Heap
heap = record { start = 100; end_ = 1000; is_init = false; addr = 0; mem = texts }

no : false ≢ true
no e = cc

heap-IsValid : IsValid heap
heap-IsValid = record {
  above = omega arith;
  room = omega arith;
  word = omega arith;
  free = λ e. absurd (no e);
}

malloc-IsBlock_example : (p : ℕ) × (h : Heap) × (malloc 20 heap ≡ ok (p, h))
malloc-IsBlock_example =
    let (p, h, run, block, valid, init) =
      (malloc-IsBlock 20 heap heap-IsValid (omega arith) (omega arith)).0 (omega arith) in
    (p, h, run)

-- With the NUL behind it the numeral ends.
atoi_lem_example : atoi 4 texts 20 ≡ ok 12
atoi_lem_example =
    atoi_lem 4 texts 20 0 (1 ∷ 2 ∷ []) (refl, (omega arith, refl, (omega arith, refl, refl)))
      (omega arith) (omega arith)
