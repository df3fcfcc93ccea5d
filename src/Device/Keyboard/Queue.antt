-- ===== src/Device/Keyboard/Queue.antt =====
-- The ring of the keyboard is a queue of up to 1023 codes.
use my_oscpu.Base.{
  ℕ, zero, suc, ◌+◌, ◌-◌, ◌%◌, ◌≤◌, ◌<◌, ◌≡◌, refl, ap, ap₂, sym, subst, ◌∙◌, arith, ◌==◌, ==_false,
  ==_refl, if◌then◌else◌, List, [], ◌∷◌, ◌++◌, length, ok, err, panic, inl, inr, Bool-cases,
}
use my_oscpu.Device.Keyboard.{Keyboard, key_enqueue, key_dequeue, key_none}

pub record IsValid (k : Keyboard) : Type 0 where
  pub front : k.key_f < 1024
  pub rear : k.key_r < 1024

-- The `n` codes from index `f` on, round the end of the array.
unfoldable pub items : (ℕ → ℕ) → ℕ → ℕ → List ℕ
items q f zero = []
items q f (suc n) = q f ∷ items q ((f + 1) % 1024) n

abbrev pub size : Keyboard → ℕ
size k = (k.key_r + 1024 - k.key_f) % 1024

-- The codes in the queue, the oldest first.
abbrev pub contents : Keyboard → List ℕ
contents k = items k.key_queue k.key_f (size k)

length-items : (q : ℕ → ℕ) (f n : ℕ) → length (items q f n) ≡ n
unfolding items
length-items q f zero = refl
length-items q f (suc n) = ap suc (length-items q ((f + 1) % 1024) n)

-- A write at the rear does not change the codes in front of it.
items-put :
    (n : ℕ) (q : ℕ → ℕ) (f r code : ℕ)
    → f < 1024
    → n < 1024
    → (f + n) % 1024 ≡ r
    → items (λ i. if i == r then code else q i) f n ≡ items q f n
unfolding items
items-put zero q f r code l s e = refl
items-put (suc n) q f r code l s e =
    ap₂ (λ x xs. x ∷ xs) (rw (==_false f r (λ d. omega (arith, d))))
      (items-put n q ((f + 1) % 1024) r code (omega arith) (omega arith) (omega arith))

items-snoc :
    (n : ℕ) (q : ℕ → ℕ) (f r : ℕ)
    → f < 1024
    → (f + n) % 1024 ≡ r
    → items q f (suc n) ≡ items q f n ++ q r ∷ []
unfolding items
items-snoc zero q f r l e = ap (λ i. q i ∷ []) (omega arith)
items-snoc (suc n) q f r l e =
    ap (λ xs. q f ∷ xs) (items-snoc n q ((f + 1) % 1024) r (omega arith) (omega arith))

-- A code goes to the end of the queue, unless 1023 are in it: then the assertion fails.
pub contents-key_enqueue :
    (code : ℕ) (k : Keyboard)
    → IsValid k
    → (length (contents k) < 1023
        → (k' : Keyboard) × (key_enqueue code k ≡ ok k')
          × IsValid k'
          × (contents k' ≡ contents k ++ code ∷ []))
      × (length (contents k) ≡ 1023 → key_enqueue code k ≡ err (panic "key queue overflow!"))
unfolding key_enqueue
contents-key_enqueue code k v =
    let r' : ℕ = (k.key_r + 1) % 1024 in
    let q : ℕ → ℕ = λ i. if i == k.key_r then code else k.key_queue i in
    let measure = length-items k.key_queue k.key_f (size k) in
    (
      λ room.
          let small : size k < 1023 = omega (arith, room, measure) in
          let more : (r' + 1024 - k.key_f) % 1024 ≡ suc (size k) =
            omega (arith, small, v.front, v.rear) in
          let rear : (k.key_f + size k) % 1024 ≡ k.key_r = omega (arith, v.front, v.rear) in
          (
            record k { key_queue = q; key_r = r' },
            rw (==_false r' k.key_f (λ d. omega (arith, d, small, v.front, v.rear))),
            record { front = v.front; rear = omega arith },
            ap (items q k.key_f) more
                ∙ items-snoc (size k) q k.key_f k.key_r v.front rear
                ∙ ap₂ (λ xs x. xs ++ x ∷ [])
                    (items-put (size k) k.key_queue k.key_f k.key_r code v.front
                      (omega (arith, small)) rear)
                    (rw (==_refl k.key_r)),
          ),
      λ full.
          let same : r' ≡ k.key_f = omega (arith, full, measure, v.front, v.rear) in
          rw (same, ==_refl k.key_f),
    )

-- What a queue of codes gives, and leaves.
abbrev pub Dequeues : Keyboard → List ℕ → ℕ × Keyboard → Type 0
Dequeues k [] r = r ≡ (key_none, k)
Dequeues k (x ∷ xs) r = (r.0 ≡ x) × (contents r.1 ≡ xs) × IsValid r.1

items-uncons : (q : ℕ → ℕ) (f n : ℕ) → 1 ≤ n → items q f n ≡ q f ∷ items q ((f + 1) % 1024) (n - 1)
items-uncons q f zero h = absurd (omega arith)
items-uncons q f (suc n) h =
    unfold items in ap (λ m. q f ∷ items q ((f + 1) % 1024) m) (omega arith)

-- The oldest code is taken off the queue, and an empty queue gives NEMU_KEY_NONE and stays as it is.
pub key_dequeue-Dequeues : (k : Keyboard) → IsValid k → Dequeues k (contents k) (key_dequeue k)
unfolding key_dequeue
key_dequeue-Dequeues k v = elim (Bool-cases (k.key_f == k.key_r)) [
  | inl empty ↦
      let none_in : size k ≡ 0 = ground (arith, empty, v.front, v.rear) in
      subst (λ n. Dequeues k (items k.key_queue k.key_f n) (key_dequeue k)) (sym none_in)
        (unfold items in rw empty)
  | inr some_in ↦
      let many : 1 ≤ size k = ground (arith, some_in, v.front, v.rear) in
      subst (λ xs. Dequeues k xs (key_dequeue k))
        (sym (items-uncons k.key_queue k.key_f (size k) many))
        (rw some_in (
          refl,
          ap (items k.key_queue ((k.key_f + 1) % 1024)) (fewer k.key_f k.key_r v.front v.rear many),
          record { front = omega arith; rear = v.rear },
        ))
]
  where
    fewer :
        (f r : ℕ)
        → f < 1024
        → r < 1024
        → 1 ≤ (r + 1024 - f) % 1024
        → (r + 1024 - (f + 1) % 1024) % 1024 ≡ (r + 1024 - f) % 1024 - 1
    fewer f r l m h = omega arith
