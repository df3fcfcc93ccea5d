-- ===== src/Klib/Str/Text.antt =====
-- Strings that end with NUL: `strlen`, `strcpy` and `strcat`.
use my_oscpu.Base.{
  ℕ, zero, suc, ◌+◌, ◌-◌, ◌≤◌, ◌<◌, ◌≡◌, ◌≢◌, ◌⊎◌, ap, sym, ◌∙◌, arith, true, not, ◌==◌, ltb, ok,
  Bool-cases, inl, inr, ==_false,
}
use my_oscpu.Memory.Bytes.{Bytes, IsBytes}
use my_oscpu.Klib.Str.{strlen, strlen_loop, strcpy, strcat}
use my_oscpu.Klib.Str.Copy.{both_set_lem, Copies, memmove-Copies}

-- A string of `n` characters at `s`.
pub record IsString (mem : Bytes) (s n : ℕ) : Type 0 where
  pub set : s ≢ 0
  pub chars : (k : ℕ) → k < n → mem (s + k) ≢ 0
  pub nul : mem (s + n) ≡ 0

strlen_loop_from :
    (fuel : ℕ) (mem : Bytes) (s n len : ℕ)
    → IsString mem s n
    → len ≤ n
    → n < len + fuel
    → strlen_loop fuel mem s len ≡ ok n
unfolding strlen_loop
strlen_loop_from zero mem s n len w h l = absurd (omega arith)
strlen_loop_from (suc fuel) mem s n len w h l = elim (here_or_later n len h) [
  | inl e ↦ rw (e, w.nul)
  | inr e ↦
      rw (==_false (mem (s + len)) 0 (w.chars len e))
        (strlen_loop_from fuel mem s n (len + 1) w (omega arith) (omega arith))
]
  where
    here_or_later : (n len : ℕ) → len ≤ n → (len ≡ n) ⊎ (len < n)
    here_or_later n len h = ground arith

set_test : (s : ℕ) → s ≢ 0 → not (s == 0) ≡ true
set_test s h = ground arith

-- `strlen` of a string is the number of its characters, with fuel above it.
pub strlen_lem :
    (fuel : ℕ) (mem : Bytes) (s n : ℕ) → IsString mem s n → n < fuel → strlen fuel mem s ≡ ok n
unfolding strlen
strlen_lem fuel mem s n w l =
    rw (set_test s w.set) (strlen_loop_from fuel mem s n 0 w (omega arith) (omega arith))

-- A copy of a string with its NUL is a string.
Copies-IsString :
    (mem : Bytes) {mem' : Bytes} (dst src n : ℕ)
    → dst ≢ 0
    → IsString mem src n
    → Copies mem dst src (n + 1) mem'
    → IsString mem' dst n
Copies-IsString mem {mem'} dst src n p w (moves, frame) = record {
  set = p;
  chars = λ k l e. w.chars k l (sym (moves k (omega arith)) ∙ e);
  nul = moves n (omega arith) ∙ w.nul;
}

-- `strcpy` of a string shorter than the fuel to a buffer that may overlap it succeeds: the buffer holds a string of the same
-- characters and length, and no byte behind its NUL or outside it changes.
pub strcpy-IsString :
    (fuel : ℕ) (mem : Bytes) (dst src n : ℕ)
    → IsBytes mem
    → dst ≢ 0
    → IsString mem src n
    → n < fuel
    → (mem' : Bytes) × (strcpy fuel mem dst src ≡ ok mem')
      × IsString mem' dst n
      × Copies mem dst src (n + 1) mem'
unfolding strcpy
strcpy-IsString fuel mem dst src n b p w l =
    let (mem', run, copied) = memmove-Copies mem dst src (n + 1) b p w.set in
    (
      mem',
      rw (both_set_lem dst src p w.set, strlen_lem fuel mem src n w l) run,
      Copies-IsString mem dst src n p w copied,
      copied,
    )

-- `strcat` of two strings shorter than the fuel leaves a string of both lengths at `dst`: first the characters it had, then
-- those that `src` had.
pub strcat-IsString :
    (fuel : ℕ) (mem : Bytes) (dst src n k : ℕ)
    → IsBytes mem
    → IsString mem dst n
    → IsString mem src k
    → n < fuel
    → k < fuel
    → (mem' : Bytes) × (strcat fuel mem dst src ≡ ok mem')
      × IsString mem' dst (n + k)
      × ((i : ℕ) → i < n → mem' (dst + i) ≡ mem (dst + i))
      × ((i : ℕ) → i < k → mem' (dst + n + i) ≡ mem (src + i))
unfolding strcat
strcat-IsString fuel mem dst src n k b w v l r =
    let (mem', run, (moves, frame)) = memmove-Copies mem (dst + n) src (k + 1) b far v.set in
    let kept : (i : ℕ) → i < n → mem' (dst + i) ≡ mem (dst + i) =
      λ i h. frame (dst + i) (inl (omega arith)) in
    (
      mem',
      rw
          (
            both_set_lem dst src w.set v.set,
            strlen_lem fuel mem dst n w l,
            strlen_lem fuel mem src k v r,
          )
          run,
      record {
        set = w.set;
        chars = λ i h. elim (first_or_second i h) [
          | inl below ↦ λ e. w.chars i below (sym (kept i below) ∙ e)
          | inr (j, at, below) ↦
              λ e. v.chars j below (sym (moves j (omega arith)) ∙ sym (ap mem' (shift i j at)) ∙ e)
        ];
        nul = ap mem' (end_at) ∙ moves k (omega arith) ∙ v.nul;
      },
      kept,
      λ i h. moves i (omega arith),
    )
  where
    far : dst + n ≢ 0
    far e = w.set (omega arith)

    first_or_second : (i : ℕ) → i < n + k → (i < n) ⊎ ((j : ℕ) × (i ≡ n + j) × (j < k))
    first_or_second i h = elim (split i n) [
      | inl below ↦ inl below
      | inr (j, at) ↦ inr (j, at, omega arith)
    ]
      where
        split : (i n : ℕ) → (i < n) ⊎ ((j : ℕ) × (i ≡ n + j))
        split i n = elim (Bool-cases (ltb i n)) [
          | inl e ↦ inl (ground arith)
          | inr e ↦ inr (i - n, ground arith)
        ]

    shift : (i j : ℕ) → i ≡ n + j → dst + i ≡ dst + n + j
    shift i j at = omega arith

    end_at : dst + (n + k) ≡ dst + n + k
    end_at = omega arith
