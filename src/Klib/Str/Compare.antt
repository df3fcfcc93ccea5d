-- ===== src/Klib/Str/Compare.antt =====
-- `memcmp` and `strcmp`: zero exactly at equal areas and equal strings.
use my_oscpu.Base.{
  ℕ, zero, suc, ◌+◌, ◌≤◌, ◌<◌, ◌^◌, ◌≡◌, ◌≢◌, refl, ap, sym, ◌∙◌, arith, if◌then◌else◌, ◌==◌, ltb,
  ok, Bool-cases, inl, inr, sub32,
}
use my_oscpu.Memory.Bytes.{Bytes, IsBytes}
use my_oscpu.Klib.Str.{memcmp, memcmp_loop, strcmp}
use my_oscpu.Klib.Str.Copy.{both_set_lem}
use my_oscpu.Klib.Str.Text.{IsString, strlen_lem}

-- The first `n` bytes are the same.
abbrev pub SameBytes : Bytes → ℕ → ℕ → ℕ → Type 0
SameBytes mem s1 s2 n = (k : ℕ) → k < n → mem (s1 + k) ≡ mem (s2 + k)

byte_difference : (mem : Bytes) (p q : ℕ) → IsBytes mem → mem p ≢ mem q → sub32 (mem p) (mem q) ≢ 0
byte_difference mem p q b h e = omega (arith, b p, b q)

head_same : (n : ℕ) (mem : Bytes) (p q : ℕ) → SameBytes mem p q (suc n) → mem p ≡ mem q
head_same n mem p q h = ap mem (grow p) ∙ h 0 (omega arith) ∙ sym (ap mem (grow q))
  where
    grow : (p : ℕ) → p ≡ p + 0
    grow p = omega arith

move : (p k : ℕ) → p + 1 + k ≡ p + suc k
move p k = omega arith

tail_same :
    (n : ℕ) (mem : Bytes) (p q : ℕ) → SameBytes mem p q (suc n) → SameBytes mem (p + 1) (q + 1) n
tail_same n mem p q h k l = ap mem (move p k) ∙ h (suc k) (omega arith) ∙ sym (ap mem (move q k))

memcmp_loop_same : (n : ℕ) (mem : Bytes) (p q : ℕ) → SameBytes mem p q n → memcmp_loop n mem p q ≡ 0
unfolding memcmp_loop
memcmp_loop_same zero mem p q h = refl
memcmp_loop_same (suc n) mem p q h =
    let rest : memcmp_loop n mem (p + 1) (q + 1) ≡ 0 =
      memcmp_loop_same n mem (p + 1) (q + 1) (tail_same n mem p q h) in
    let same : mem p ≡ mem q = head_same n mem p q h in ground (arith, same, rest)

memcmp_loop-zero :
    (n : ℕ) (mem : Bytes) (p q : ℕ)
    → IsBytes mem
    → memcmp_loop (suc n) mem p q ≡ 0
    → (mem p ≡ mem q) × (memcmp_loop n mem (p + 1) (q + 1) ≡ 0)
unfolding memcmp_loop
memcmp_loop-zero n mem p q b e = elim (Bool-cases (mem p == mem q)) [
  | inl same ↦ (ground (arith, same), ground (arith, e, same))
  | inr differ ↦
      absurd (byte_difference mem p q b (ground (arith, differ)) (ground (arith, e, differ)))
]

memcmp_loop-SameBytes :
    (n : ℕ) (mem : Bytes) (p q : ℕ) → IsBytes mem → memcmp_loop n mem p q ≡ 0 → SameBytes mem p q n
memcmp_loop-SameBytes zero mem p q b e k h = absurd (omega arith)
memcmp_loop-SameBytes (suc n) mem p q b e zero h =
    ap mem (grow p) ∙ (memcmp_loop-zero n mem p q b e).0 ∙ sym (ap mem (grow q))
  where
    grow : (p : ℕ) → p + 0 ≡ p
    grow p = omega arith
memcmp_loop-SameBytes (suc n) mem p q b e (suc k) h =
    sym (ap mem (move p k))
    ∙ memcmp_loop-SameBytes n mem (p + 1) (q + 1) b (memcmp_loop-zero n mem p q b e).1 k
        (omega arith)
    ∙ ap mem (move q k)

-- `memcmp` of areas that are not NULL succeeds, and is zero exactly when all their bytes agree.
pub memcmp_iff-SameBytes :
    (mem : Bytes) (s1 s2 n : ℕ)
    → IsBytes mem
    → s1 ≢ 0
    → s2 ≢ 0
    → (r : ℕ) × (memcmp mem s1 s2 n ≡ ok r)
      × (r ≡ 0 → SameBytes mem s1 s2 n)
      × (SameBytes mem s1 s2 n → r ≡ 0)
unfolding memcmp
memcmp_iff-SameBytes mem s1 s2 n b p q = (
  memcmp_loop n mem s1 s2,
  rw (both_set_lem s1 s2 p q),
  memcmp_loop-SameBytes n mem s1 s2 b,
  memcmp_loop_same n mem s1 s2,
)

-- `strcmp` of two strings shorter than the fuel, which is at most 2 ^ 32, succeeds, and is zero exactly when they have the same length and characters.
pub strcmp_iff-SameBytes :
    (fuel : ℕ) (mem : Bytes) (s1 s2 n k : ℕ)
    → IsBytes mem
    → IsString mem s1 n
    → IsString mem s2 k
    → n < fuel
    → k < fuel
    → fuel ≤ 2 ^ 32
    → (r : ℕ) × (strcmp fuel mem s1 s2 ≡ ok r)
      × (r ≡ 0 → (n ≡ k) × SameBytes mem s1 s2 n)
      × ((n ≡ k) × SameBytes mem s1 s2 n → r ≡ 0)
unfolding strcmp
strcmp_iff-SameBytes fuel mem s1 s2 n k b w v l r f =
    let (c, run, zero_same, same_zero) =
      memcmp_iff-SameBytes mem s1 s2 (if ltb n k then n else k) b w.set v.set in
    (
      if c == 0 then sub32 n k else c,
      rw (
        both_set_lem s1 s2 w.set v.set,
        strlen_lem fuel mem s1 n w l,
        strlen_lem fuel mem s2 k v r,
        run,
      ),
      λ e.
          let agree : SameBytes mem s1 s2 (if ltb n k then n else k) =
            zero_same (zero_of c n k e) in
          let equal : n ≡ k = lengths c n k (omega arith) (omega arith) e in
          (equal, λ i h. agree i (shorter n k i equal h)),
      λ h. zero_result c n k h.0 (same_zero (λ i below. h.1 i (longer n k i h.0 below))),
    )
  where
    zero_of : (c n k : ℕ) → (if c == 0 then sub32 n k else c) ≡ 0 → c ≡ 0
    zero_of c n k e = ground arith

    lengths : (c n k : ℕ) → n < 2 ^ 32 → k < 2 ^ 32 → (if c == 0 then sub32 n k else c) ≡ 0 → n ≡ k
    lengths c n k l r e = ground arith

    shorter : (n k i : ℕ) → n ≡ k → i < n → i < (if ltb n k then n else k)
    shorter n k i e h = ground arith

    longer : (n k i : ℕ) → n ≡ k → i < (if ltb n k then n else k) → i < n
    longer n k i e h = ground arith

    zero_result : (c n k : ℕ) → n ≡ k → c ≡ 0 → (if c == 0 then sub32 n k else c) ≡ 0
    zero_result c n k e h = ground arith
