-- ===== src/Klib/Str/Copy.antt =====
-- What the copies and fills of string.c leave in memory, the areas overlapping or not.
use my_oscpu.Base.{
  ℕ, zero, suc, ◌+◌, ◌%◌, ◌≤◌, ◌<◌, ◌≡◌, ◌≢◌, ◌⊎◌, ◌&&◌, refl, ap, sym, ◌∙◌, arith, true, false,
  ltb, not, ◌==◌, ok, Bool-cases, inl, inr,
}
use my_oscpu.Memory.Bytes.{Bytes, IsBytes, store}
use my_oscpu.Klib.Str.{copy_back, copy_front, both_set, memset_loop, memmove, memcpy, memset}

pub store-IsBytes : (mem : Bytes) (o v : ℕ) → IsBytes mem → IsBytes (store mem o v)
store-IsBytes mem o v b i = ground (arith, b i)

store_other : (mem : Bytes) (o v i : ℕ) → i ≢ o → store mem o v i ≡ mem i
store_other mem o v i h = ground arith

-- Outside the `n` bytes at `p`.
abbrev pub Outside : ℕ → ℕ → ℕ → Type 0
Outside p n i = (i < p) ⊎ (p + n ≤ i)

pub copy_back_frame :
    (n : ℕ) (mem : Bytes) (dst src i : ℕ) → Outside dst n i → copy_back n mem dst src i ≡ mem i
unfolding copy_back
copy_back_frame zero mem dst src i h = refl
copy_back_frame (suc n) mem dst src i h =
    copy_back_frame n _ dst src i (ground arith) ∙ store_other mem _ _ i (ground arith)

pub copy_front_frame :
    (n : ℕ) (mem : Bytes) (dst src i : ℕ) → Outside dst n i → copy_front n mem dst src i ≡ mem i
unfolding copy_front
copy_front_frame zero mem dst src i h = refl
copy_front_frame (suc n) mem dst src i h =
    copy_front_frame n _ (dst + 1) (src + 1) i (ground arith) ∙ store_other mem _ _ i (ground arith)

pub copy_back_moves :
    (n k : ℕ) (mem : Bytes) (dst src : ℕ)
    → IsBytes mem
    → src ≤ dst
    → k < n
    → copy_back n mem dst src (dst + k) ≡ mem (src + k)
unfolding copy_back
copy_back_moves zero k mem dst src b h l = absurd (omega arith)
copy_back_moves (suc n) k mem dst src b h l = elim (last_or_before n k l) [
  | inl e ↦
      ap (λ t. copy_back n (store mem (dst + n) (mem (src + n))) dst src (dst + t)) e
      ∙ copy_back_frame n _ dst src (dst + n) (inr (omega arith))
      ∙ stored n
      ∙ ap (λ t. mem (src + t)) (sym e)
  | inr e ↦
      copy_back_moves n k _ dst src (store-IsBytes mem _ _ b) h e
      ∙ store_other mem _ _ (src + k) (ground arith)
]
  where
    last_or_before : (n k : ℕ) → k < suc n → (k ≡ n) ⊎ (k < n)
    last_or_before n k l = ground arith

    stored : (n : ℕ) → store mem (dst + n) (mem (src + n)) (dst + n) ≡ mem (src + n)
    stored n = ground (arith, b (src + n))

pub copy_front_moves :
    (n k : ℕ) (mem : Bytes) (dst src : ℕ)
    → IsBytes mem
    → (dst ≤ src) ⊎ (src + n ≤ dst)
    → k < n
    → copy_front n mem dst src (dst + k) ≡ mem (src + k)
unfolding copy_front
copy_front_moves zero k mem dst src b h l = absurd (omega arith)
copy_front_moves (suc n) zero mem dst src b h l =
    ap (λ t. copy_front n (store mem dst (mem src)) (dst + 1) (src + 1) t) here
    ∙ copy_front_frame n _ (dst + 1) (src + 1) dst (inl (omega arith))
    ∙ stored
    ∙ ap mem there
  where
    here : dst + 0 ≡ dst
    here = omega arith

    there : src ≡ src + 0
    there = omega arith

    stored : store mem dst (mem src) dst ≡ mem src
    stored = ground (arith, b src)
copy_front_moves (suc n) (suc k) mem dst src b h l =
    ap (copy_front n (store mem dst (mem src)) (dst + 1) (src + 1)) there
    ∙ copy_front_moves n k _ (dst + 1) (src + 1) (store-IsBytes mem _ _ b) (ground arith)
        (omega arith)
    ∙ store_other mem _ _ (src + 1 + k) (ground arith)
    ∙ ap mem here
  where
    there : dst + suc k ≡ dst + 1 + k
    there = omega arith

    here : src + 1 + k ≡ src + suc k
    here = omega arith

pub both_set_lem : (p q : ℕ) → p ≢ 0 → q ≢ 0 → both_set p q ≡ true
both_set_lem p q h k = ground arith

-- What a copy of `n` bytes leaves.
abbrev pub Copies : Bytes → ℕ → ℕ → ℕ → Bytes → Type 0
Copies mem dst src n mem' =
    ((k : ℕ) → k < n → mem' (dst + k) ≡ mem (src + k))
    × ((i : ℕ) → Outside dst n i → mem' i ≡ mem i)

copy_front-Copies :
    (mem : Bytes) (dst src n : ℕ)
    → IsBytes mem
    → (dst ≤ src) ⊎ (src + n ≤ dst)
    → Copies mem dst src n (copy_front n mem dst src)
copy_front-Copies mem dst src n b h =
    (λ k l. copy_front_moves n k mem dst src b h l, λ i o. copy_front_frame n mem dst src i o)

-- `memmove` of areas that are not NULL, overlapping or not, succeeds: the destination then holds the
-- bytes that the source held before, and no other byte changes.
pub memmove-Copies :
    (mem : Bytes) (dst src n : ℕ)
    → IsBytes mem
    → dst ≢ 0
    → src ≢ 0
    → (mem' : Bytes) × (memmove mem dst src n ≡ ok mem') × Copies mem dst src n mem'
unfolding memmove
memmove-Copies mem dst src n b p q = elim (Bool-cases (ltb src dst && ltb dst (src + n))) [
  | inl e ↦ (
    copy_back n mem dst src,
    rw (both_set_lem dst src p q, e),
    (
      λ k l. copy_back_moves n k mem dst src b (ground arith) l,
      λ i o. copy_back_frame n mem dst src i o,
    ),
  )
  | inr e ↦ (
    copy_front n mem dst src,
    rw (both_set_lem dst src p q, e),
    copy_front-Copies mem dst src n b (ground arith),
  )
]

-- `memcpy` of areas that do not overlap does what `memmove` does, byte for byte.
pub memcpy-memmove :
    (mem : Bytes) (out in_ n : ℕ)
    → IsBytes mem
    → out ≢ 0
    → in_ ≢ 0
    → (out + n ≤ in_) ⊎ (in_ + n ≤ out)
    → memcpy mem out in_ n ≡ memmove mem out in_ n
unfolding memcpy memmove
memcpy-memmove mem out in_ n b p q h =
    rw (both_set_lem out in_ p q, both_set_lem in_ out q p, no_overlap)
  where
    no_overlap : (ltb in_ out && ltb out (in_ + n)) ≡ false
    no_overlap = ground arith

memset_loop_frame :
    (n : ℕ) (mem : Bytes) (s c i : ℕ) → Outside s n i → memset_loop n mem s c i ≡ mem i
unfolding memset_loop
memset_loop_frame zero mem s c i h = refl
memset_loop_frame (suc n) mem s c i h =
    memset_loop_frame n _ (s + 1) c i (ground arith) ∙ store_other mem _ _ i (ground arith)

memset_loop_fills :
    (n k : ℕ) (mem : Bytes) (s c : ℕ) → k < n → memset_loop n mem s c (s + k) ≡ c % 256
unfolding memset_loop
memset_loop_fills zero k mem s c l = absurd (omega arith)
memset_loop_fills (suc n) zero mem s c l =
    memset_loop_frame n _ (s + 1) c (s + 0) (inl (omega arith)) ∙ stored
  where
    stored : store mem s c (s + 0) ≡ c % 256
    stored = ground arith
memset_loop_fills (suc n) (suc k) mem s c l =
    ap (memset_loop n (store mem s c) (s + 1) c) there
    ∙ memset_loop_fills n k _ (s + 1) c (omega arith)
  where
    there : s + suc k ≡ s + 1 + k
    there = omega arith

-- `memset` of an area that is not NULL succeeds, leaves the low byte of `c` in each of its `n` bytes,
-- and changes no other.
pub memset_lem :
    (mem : Bytes) (s c n : ℕ)
    → s ≢ 0
    → (mem' : Bytes) × (memset mem s c n ≡ ok mem')
      × ((k : ℕ) → k < n → mem' (s + k) ≡ c % 256)
      × ((i : ℕ) → Outside s n i → mem' i ≡ mem i)
unfolding memset
memset_lem mem s c n p = (
  memset_loop n mem s c,
  rw set,
  λ k l. memset_loop_fills n k mem s c l,
  λ i o. memset_loop_frame n mem s c i o,
)
  where
    set : not (s == 0) ≡ true
    set = ground arith
