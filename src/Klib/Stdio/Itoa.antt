-- ===== src/Klib/Stdio/Itoa.antt =====
-- The loop at the end of `itoa` (abstract-machine/klib/src/stdio.c) reverses the text.
pub mod Atoi
use my_oscpu.Base.{
  ℕ, zero, suc, ◌+◌, ◌-◌, ◌*◌, ◌/◌, ◌%◌, ◌^◌, ◌≤◌, ◌<◌, ◌≡◌, ◌≢◌, ◌⊎◌, inl, inr, refl, sym, ap, ap₂,
  subst, ◌∙◌, arith, Bool, true, false, Bool-cases, ◌==◌, ==_iff, ==_refl, ==_false, ltb, List, [],
  ◌∷◌, ◌++◌, length, length-append, length-set, get_or, get_or-set_self, get_or-set_ne, set, Result,
  ok, err, ◌>>=◌, if◌then◌else◌,
}
use my_oscpu.Klib.Stdio.{digit, digit_loop, swap_loop, swap, itoa, magnitude}

-- The characters from the last to the first.
abbrev pub rev : List ℕ → List ℕ
rev [] = []
rev (c ∷ s) = rev s ++ c ∷ []

pub length-rev : (s : List ℕ) → length (rev s) ≡ length s
length-rev [] = refl
length-rev (c ∷ s) = omega (arith, length-append (rev s) (c ∷ []), length-rev s)

get_or-append_left : (s t : List ℕ) (i d : ℕ) → i < length s → get_or (s ++ t) i d ≡ get_or s i d
get_or-append_left [] t i d h = absurd (omega arith)
get_or-append_left (c ∷ s) t zero d h = refl
get_or-append_left (c ∷ s) t (suc i) d h = get_or-append_left s t i d (omega arith)

get_or-append_length : (s : List ℕ) (c d : ℕ) → get_or (s ++ c ∷ []) (length s) d ≡ c
get_or-append_length [] c d = refl
get_or-append_length (x ∷ s) c d = get_or-append_length s c d

get_or-rev :
    (s : List ℕ) (i : ℕ) → i < length s → get_or (rev s) i 0 ≡ get_or s (length s - 1 - i) 0
get_or-rev [] i h = absurd (omega arith)
get_or-rev (c ∷ s) i h = elim (Bool-cases (i == length s)) [
  | inl last ↦
      let is : i ≡ length s = (==_iff i (length s)).0 last in
      ap (λ k. get_or (rev s ++ c ∷ []) k 0) (is ∙ sym (length-rev s))
      ∙ get_or-append_length (rev s) c 0
      ∙ ap (λ k. get_or (c ∷ s) k 0) (first (length s) i is)
  | inr other ↦
      let small : i < length s = ground (arith, other, h) in
      get_or-append_left (rev s) (c ∷ []) i 0 (omega (arith, small, length-rev s))
      ∙ get_or-rev s i small
      ∙ ap (λ k. get_or (c ∷ s) k 0) (next (length s) i small)
]
  where
    first : (n i : ℕ) → i ≡ n → 0 ≡ suc n - 1 - i
    first n i h = omega (arith, h)

    next : (n i : ℕ) → i < n → suc (n - 1 - i) ≡ suc n - 1 - i
    next n i h = omega arith

-- Lists with the same length and elements are equal.
same_elements :
    (s t : List ℕ)
    → length s ≡ length t
    → ((i : ℕ) → i < length s → get_or s i 0 ≡ get_or t i 0)
    → s ≡ t
same_elements [] [] l h = refl
same_elements [] (d ∷ t) l h = absurd (omega (arith, l))
same_elements (c ∷ s) [] l h = absurd (omega (arith, l))
same_elements (c ∷ s) (d ∷ t) l h =
    ap₂ (λ x xs. x ∷ xs) (h 0 (omega arith))
      (same_elements s t (omega (arith, l)) (λ i p. h (suc i) (omega (arith, p))))

-- Within `k` of either end the characters have changed places, and the others have not.
abbrev Swapped : List ℕ → ℕ → List ℕ → Type 0
Swapped s k t =
    (length t ≡ length s)
    × ((i : ℕ)
        → i < length s
        → ((i < k) ⊎ (length s ≤ i + k) → get_or t i 0 ≡ get_or s (length s - 1 - i) 0)
          × (k ≤ i → i + k < length s → get_or t i 0 ≡ get_or s i 0))

-- The element of the list with two places exchanged.
get_or-swap :
    (t : List ℕ) (k j i : ℕ)
    → k < length t
    → j < length t
    → k < j
    → (i ≡ j → get_or (swap k j t) i 0 ≡ get_or t k 0)
      × (i ≡ k → get_or (swap k j t) i 0 ≡ get_or t j 0)
      × (i ≢ j → i ≢ k → get_or (swap k j t) i 0 ≡ get_or t i 0)
get_or-swap t k j i hk hj lt =
    let t1 : List ℕ = set t k (get_or t j 0) in
    let tk : ℕ = get_or t k 0 in
    (
      (λ e.
          ap (λ x. get_or (set t1 j tk) x 0) e
          ∙ get_or-set_self t1 j tk 0 (omega (arith, hj, length-set t k (get_or t j 0)))),
      (λ e.
          ap (λ x. get_or (set t1 j tk) x 0) e
          ∙ get_or-set_ne t1 j k tk 0 (λ d. omega (arith, d, lt))
          ∙ get_or-set_self t k (get_or t j 0) 0 hk),
      (λ nj nk.
          get_or-set_ne t1 j i tk 0 (λ d. nj (sym d))
          ∙ get_or-set_ne t k i (get_or t j 0) 0 (λ d. nk (sym d))),
    )

swap-Swapped_at :
    (s t : List ℕ) (k j : ℕ)
    → k + k + 1 < length s
    → j + k + 1 ≡ length s
    → Swapped s k t
    → Swapped s (k + 1) (swap k j t)
swap-Swapped_at s t k j h e w = (
  length-set (set t k (get_or t j 0)) j (get_or t k 0) ∙ length-set t k (get_or t j 0) ∙ w.0,
  λ i l.
      let (at_j, at_k, else_) =
        get_or-swap t k j i (omega (arith, w.0)) (omega (arith, w.0)) (omega arith) in
      let back : length s - 1 - j ≡ k = omega (arith, e) in
      let forth : length s - 1 - k ≡ j = omega (arith, e) in
      let (outer, inner) = w.1 i l in
      elim (Bool-cases (i == j)) [
        | inl hit ↦
            let is : i ≡ j = (==_iff i j).0 hit in
            (
              (λ _.
                  at_j is
                  ∙ (w.1 k (omega arith)).1 (omega arith) (omega arith)
                  ∙ ap (λ x. get_or s x 0) (sym (ap (λ x. length s - 1 - x) is ∙ back))),
              (λ p q. absurd (omega (arith, p, q, is, e))),
            )
        | inr not_j ↦ elim (Bool-cases (i == k)) [
          | inl hit ↦
              let is : i ≡ k = (==_iff i k).0 hit in
              (
                (λ _.
                    at_k is
                    ∙ (w.1 j (omega (arith, e))).1 (omega (arith, e)) (omega (arith, e))
                    ∙ ap (λ x. get_or s x 0) (sym (ap (λ x. length s - 1 - x) is ∙ forth))),
                (λ p q. absurd (omega (arith, p, is))),
              )
          | inr not_k ↦
              let same = else_ (differ i j not_j) (differ i k not_k) in
              (
                (λ side. same ∙ outer (ground (arith, side, not_j, not_k, e))),
                (λ p q. same ∙ inner (omega (arith, p)) (omega (arith, q))),
              )
        ]
      ],
)
  where
    differ : (a b : ℕ) → (a == b) ≡ false → a ≢ b
    differ a b no_ d = ground (arith, no_, d)

swap-Swapped :
    (s t : List ℕ) (k : ℕ)
    → k + k + 1 < length s
    → Swapped s k t
    → Swapped s (k + 1) (swap k (length t - 1 - k) t)
swap-Swapped s t k h w = swap-Swapped_at s t k (length t - 1 - k) h (omega (arith, h, w.0)) w

swap_loop-Swapped :
    (n k : ℕ) (s t : List ℕ)
    → n + k ≤ length s / 2
    → Swapped s k t
    → Swapped s (n + k) (swap_loop n k t)
unfolding swap_loop
swap_loop-Swapped zero k s t h w = subst (λ m. Swapped s m t) (zero_add k) w
  where
    zero_add : (k : ℕ) → k ≡ 0 + k
    zero_add k = omega arith
swap_loop-Swapped (suc n) k s t h w =
    subst (λ m. Swapped s m (swap_loop n (k + 1) (swap k (length t - 1 - k) t))) (omega arith)
      (swap_loop-Swapped n (k + 1) s (swap k (length t - 1 - k) t) (omega (arith, h))
        (swap-Swapped s t k (omega (arith, h)) w))

pub swap_loop-rev : (s : List ℕ) → swap_loop (length s / 2) 0 s ≡ rev s
swap_loop-rev s =
    let t : List ℕ = swap_loop (length s / 2) 0 s in
    let n : ℕ = length s / 2 in
    let w : Swapped s (n + 0) t =
      swap_loop-Swapped n 0 s s (omega arith)
        (refl, λ i l. (λ side. absurd (ground (arith, side, l)), λ p q. refl)) in
    same_elements t (rev s) (w.0 ∙ sym (length-rev s)) λ i l.
      let inside : i < length s = omega (arith, l, w.0) in
      let (outer, inner) = w.1 i inside in
      elim (Bool-cases (ltb i n)) [
        | inl front ↦ outer (inl (ground (arith, front))) ∙ sym (get_or-rev s i inside)
        | inr front ↦ elim (Bool-cases (ltb (i + n) (length s))) [
          | inl middle ↦
              inner (ground (arith, front)) (ground (arith, middle))
              ∙ ap (λ x. get_or s x 0) (centre (length s) i front middle)
              ∙ sym (get_or-rev s i inside)
          | inr back ↦ outer (inr (ground (arith, back))) ∙ sym (get_or-rev s i inside)
        ]
      ]
  where
    centre : (m i : ℕ) → ltb i (m / 2) ≡ false → ltb (i + m / 2) m ≡ true → i ≡ m - 1 - i
    centre m i front middle = ground (arith, front, middle)
