-- ===== src/Sdb/Watchpoint/Chain.antt =====
-- Lists that run through the `next` fields of the pool, and their separation.
use my_oscpu.Base.{
  ℕ, ◌≡◌, ◌≢◌, sym, subst, Option, none, some, List, [], ◌∷◌, ◌++◌, All, ◌==◌, if◌then◌else◌,
  ==_false, ==_refl,
}

-- The list from `p` on is `xs`, and then NULL.
abbrev pub Chain : (ℕ → Option ℕ) → Option ℕ → List ℕ → Type 0
Chain next p [] = p ≡ none
Chain next p (x ∷ xs) = (p ≡ some x) × Chain next (next x) xs

abbrev pub NotIn : ℕ → List ℕ → Type 0
NotIn i xs = All (λ x. x ≢ i) xs

abbrev pub Distinct : List ℕ → Type 0
Distinct [] = Unit {0}
Distinct (x ∷ xs) = NotIn x xs × Distinct xs

abbrev pub put : (ℕ → Option ℕ) → ℕ → Option ℕ → ℕ → Option ℕ
put next i x j = if j == i then x else next j

pub put_same : (next : ℕ → Option ℕ) (i : ℕ) (x : Option ℕ) → put next i x i ≡ x
put_same next i x = rw (==_refl i)

pub put_other : (next : ℕ → Option ℕ) (i j : ℕ) (x : Option ℕ) → j ≢ i → put next i x j ≡ next j
put_other next i j x h = rw (==_false j i h)

pub Chain-start :
    (next : ℕ → Option ℕ) (xs : List ℕ) {p q : Option ℕ} → p ≡ q → Chain next p xs → Chain next q xs
Chain-start next xs e c = subst (λ (t : Option ℕ). Chain next t xs) e c

-- A field outside the list does not matter to it.
pub Chain-put :
    (next : ℕ → Option ℕ) (i : ℕ) (v p : Option ℕ) (xs : List ℕ)
    → NotIn i xs
    → Chain next p xs
    → Chain (put next i v) p xs
Chain-put next i v p [] n c = c
Chain-put next i v p (x ∷ xs) n c = (
  c.0,
  Chain-put next i v (put next i v x) xs n.1
      (Chain-start next xs (sym (put_other next i x v n.0)) c.1),
)

-- The last of `x ∷ xs`.
abbrev pub last_of : ℕ → List ℕ → ℕ
last_of x [] = x
last_of x (y ∷ ys) = last_of y ys

pub last_of-NotIn : (i x : ℕ) (xs : List ℕ) → NotIn i (x ∷ xs) → last_of x xs ≢ i
last_of-NotIn i x [] n = n.0
last_of-NotIn i x (y ∷ ys) n = last_of-NotIn i y ys n.1

pub NotIn-append_left : (i : ℕ) (xs ys : List ℕ) → NotIn i (xs ++ ys) → NotIn i xs
NotIn-append_left i [] ys n = tt
NotIn-append_left i (x ∷ xs) ys n = (n.0, NotIn-append_left i xs ys n.1)

pub NotIn-drop : (i d : ℕ) (xs ys : List ℕ) → NotIn i (xs ++ d ∷ ys) → NotIn i (xs ++ ys)
NotIn-drop i d [] ys n = n.1
NotIn-drop i d (x ∷ xs) ys n = (n.0, NotIn-drop i d xs ys n.1)

-- `d` taken out behind the last of `x ∷ xs`.
pub Chain-unlink :
    (next : ℕ → Option ℕ) (p : Option ℕ) (x d : ℕ) (xs ys : List ℕ)
    → Distinct (x ∷ xs ++ d ∷ ys)
    → Chain next p (x ∷ xs ++ d ∷ ys)
    → Chain (put next (last_of x xs) (next d)) p (x ∷ xs ++ ys)
Chain-unlink next p x d [] ys distinct c =
    let (start, (behind, rest)) = c in
    (
      start,
      Chain-put next x (next d) (put next x (next d) x) ys distinct.0.1
          (Chain-start next ys (sym (put_same next x (next d))) rest),
    )
Chain-unlink next p x d (y ∷ xs) ys distinct c =
    let (start, rest) = c in
    let others : NotIn x (y ∷ xs) = NotIn-append_left x (y ∷ xs) (d ∷ ys) distinct.0 in
    (
      start,
      Chain-start (put next (last_of y xs) (next d)) (y ∷ xs ++ ys)
          (sym
            (put_other next (last_of y xs) x (next d) (λ e. last_of-NotIn x y xs others (sym e))))
          (Chain-unlink next (next x) y d xs ys distinct.1 rest),
    )
