-- ===== src/Tracer/Ring/Recent.antt =====
-- What the ring buffer keeps: the last sixteen texts, the newest first.
use my_oscpu.Base.{
  ℕ, zero, suc, ◌+◌, ◌-◌, ◌%◌, ◌≤◌, ◌<◌, ◌≡◌, ◌≢◌, refl, ap, ap₂, ◌∙◌, arith, Bool, true, false,
  ◌==◌, ==_false, Bool-cases, inl, inr, sym, ==_refl, ltb, if◌then◌else◌, List, [], ◌∷◌, take,
}
use my_oscpu.Tracer.Ring.{RingBuffer, write_ring_buffer, print_loop, print_ring_buffer}

pub record IsValid (r : RingBuffer) : Type 0 where
  pub head : r.head < 16
  pub size : r.size ≤ 16

abbrev texts : List (Bool × List ℕ) → List (List ℕ)
texts [] = []
texts (x ∷ xs) = x.1 ∷ texts xs

-- The texts that `print_ring_buffer` prints.
abbrev pub recent : RingBuffer → List (List ℕ)
recent r = texts (print_ring_buffer r)

-- An entry that is not among the `n` in front of `index` is not printed.
print_loop-other :
    (n : ℕ) (b : ℕ → List ℕ) (h : ℕ) (t : List ℕ) (index k : ℕ)
    → index < 16
    → h < 16
    → (index + k) % 16 ≡ h
    → n + k ≤ 15
    → texts (print_loop n (λ i. if i == h then t else b i) index) ≡ texts (print_loop n b index)
unfolding print_loop
print_loop-other zero b h t index k l m e s = refl
print_loop-other (suc n) b h t index k l m e s =
    ap₂ (λ x xs. x ∷ xs)
      (rw (==_false ((index + 16 - 1) % 16) h (other index h k l m e (omega arith))))
      (print_loop-other n b h t ((index + 16 - 1) % 16) (k + 1) (omega arith) m (omega arith)
        (omega arith))
  where
    other :
        (index h k : ℕ)
        → index < 16
        → h < 16
        → (index + k) % 16 ≡ h
        → k ≤ 14
        → (index + 16 - 1) % 16 ≢ h
    other index h k l m e s d = omega (arith, d)

take-print_loop :
    (k n : ℕ) (b : ℕ → List ℕ) (index : ℕ)
    → k ≤ n
    → take k (texts (print_loop n b index)) ≡ texts (print_loop k b index)
unfolding print_loop
take-print_loop zero n b index h = refl
take-print_loop (suc k) zero b index h = absurd (omega arith)
take-print_loop (suc k) (suc n) b index h =
    ap (λ xs. b ((index + 16 - 1) % 16) ∷ xs)
      (take-print_loop k n b ((index + 16 - 1) % 16) (omega arith))

take-print_loop_all :
    (k n : ℕ) (b : ℕ → List ℕ) (index : ℕ)
    → n ≤ k
    → take k (texts (print_loop n b index)) ≡ texts (print_loop n b index)
unfolding print_loop
take-print_loop_all zero zero b index h = refl
take-print_loop_all zero (suc n) b index h = absurd (omega arith)
take-print_loop_all (suc k) zero b index h = refl
take-print_loop_all (suc k) (suc n) b index h =
    ap (λ xs. b ((index + 16 - 1) % 16) ∷ xs)
      (take-print_loop_all k n b ((index + 16 - 1) % 16) (omega arith))

-- Behind a write at `h` that text is printed first, and then what was printed from `h` on.
newest :
    (n : ℕ) (b : ℕ → List ℕ) (h : ℕ) (t : List ℕ)
    → h < 16
    → n ≤ 15
    → texts (print_loop (suc n) (λ i. if i == h then t else b i) ((h + 1) % 16))
      ≡ t ∷ texts (print_loop n b h)
unfolding print_loop
newest n b h t l s =
    ap (λ i. (if i == h then t else b i) ∷ texts (print_loop n (λ j. if j == h then t else b j) i))
      back
    ∙ ap₂ (λ x xs. x ∷ xs) (rw (==_refl h))
        (print_loop-other n b h t h 0 l l (omega arith) (omega arith))
  where
    back : ((h + 1) % 16 + 16 - 1) % 16 ≡ h
    back = omega arith

pub write_ring_buffer-IsValid :
    (t : List ℕ) (r : RingBuffer) → IsValid r → IsValid (write_ring_buffer t r)
unfolding write_ring_buffer
write_ring_buffer-IsValid t r v = record { head = omega arith; size = ground (arith, v.size) }

-- A text that is written, cut to 127 characters, is printed first, and behind it the fifteen that were
-- printed first before.
pub recent-write_ring_buffer :
    (t : List ℕ) (r : RingBuffer)
    → IsValid r
    → recent (write_ring_buffer t r) ≡ take 127 t ∷ take 15 (recent r)
unfolding write_ring_buffer print_ring_buffer
recent-write_ring_buffer t r v = elim (Bool-cases (ltb r.size 16)) [
  | inl room ↦ rw room (
      ap
        (λ n.
          texts (
            print_loop n (λ i. if i == r.head then take 127 t else r.buffer i) ((r.head + 1) % 16)))
        (next r.size)
      ∙ newest r.size r.buffer r.head (take 127 t) v.head (small r.size room)
      ∙ ap (λ xs. take 127 t ∷ xs)
          (sym (take-print_loop_all 15 r.size r.buffer r.head (small r.size room))))
  | inr full ↦
      rw (full, sixteen r.size v.size full)
        (newest 15 r.buffer r.head (take 127 t) v.head (omega arith)
          ∙ ap (λ xs. take 127 t ∷ xs) (sym (take-print_loop 15 16 r.buffer r.head (omega arith))))
]
  where
    next : (n : ℕ) → n + 1 ≡ suc n
    next n = omega arith

    small : (n : ℕ) → ltb n 16 ≡ true → n ≤ 15
    small n h = ground (arith, h)

    sixteen : (n : ℕ) → n ≤ 16 → ltb n 16 ≡ false → n ≡ 16
    sixteen n h k = ground (arith, h, k)
