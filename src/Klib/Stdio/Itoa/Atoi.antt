-- ===== src/Klib/Stdio/Itoa/Atoi.antt =====
-- `atoi` reads back what `itoa` has printed (abstract-machine/klib/src/stdio.c and stdlib.c).
use my_oscpu.Base.{
  ℕ, zero, suc, ◌+◌, ◌*◌, ◌/◌, ◌%◌, ◌^◌, ◌≤◌, ◌<◌, ◌≡◌, refl, sym, ap, ◌∙◌, arith, false,
  Bool-cases, inl, inr, ◌==◌, List, [], ◌∷◌, ◌++◌, length, get_or, All, ok, is_neg32,
}
use native.Mathlib.Nat.{pow-suc}
use my_oscpu.Memory.Bytes.{Bytes}
use my_oscpu.Klib.Stdlib.{atoi, is_digit}
use my_oscpu.Klib.Stdlib.Numbers.{value_from, Holds, Spaced, atoi_lem}
use my_oscpu.Klib.Stdio.{digit, digit_loop, itoa}
use my_oscpu.Klib.Stdio.Itoa.{rev, swap_loop-rev}

-- The value of digits, the lowest first, and their characters.
abbrev low_value : List ℕ → ℕ
low_value [] = 0
low_value (d ∷ ds) = d + 10 * low_value ds

abbrev chars : List ℕ → List ℕ
chars [] = []
chars (d ∷ ds) = digit d ∷ chars ds

abbrev AreDigits : List ℕ → Type 0
AreDigits ds = All (λ d. d < 10) ds

pub digit_loop-low_value :
    (fuel v : ℕ)
    → v < 2 ^ fuel
    → (ds : List ℕ) × (digit_loop (suc fuel) 10 v ≡ ok (chars ds))
      × AreDigits ds
      × (low_value ds ≡ v)
unfolding digit_loop
digit_loop-low_value zero v h = let is : v ≡ 0 = omega (arith, h) in ([], rw is refl, tt, sym is)
digit_loop-low_value (suc fuel) v h = elim (Bool-cases (v == 0)) [
  | inl none_left ↦ ([], rw none_left refl, tt, ground (arith, none_left))
  | inr some_left ↦
      let (ds, is, small, value) =
        digit_loop-low_value fuel (v / 10) (omega (arith, h, pow-suc 2 fuel)) in
      (v % 10 ∷ ds, rw (some_left, is) refl, (omega arith, small), omega (arith, value))
]

chars-append : (xs ys : List ℕ) → chars (xs ++ ys) ≡ chars xs ++ chars ys
chars-append [] ys = refl
chars-append (x ∷ xs) ys = ap (λ cs. digit x ∷ cs) (chars-append xs ys)

chars-rev : (ds : List ℕ) → chars (rev ds) ≡ rev (chars ds)
chars-rev [] = refl
chars-rev (d ∷ ds) = chars-append (rev ds) (d ∷ []) ∙ ap (λ cs. cs ++ digit d ∷ []) (chars-rev ds)

length-chars : (ds : List ℕ) → length (chars ds) ≡ length ds
length-chars [] = refl
length-chars (d ∷ ds) = ap suc (length-chars ds)

value_from-append : (x d : ℕ) (xs : List ℕ) → value_from x (xs ++ d ∷ []) ≡ value_from x xs * 10 + d
value_from-append x d [] = refl
value_from-append x d (y ∷ xs) = value_from-append (x * 10 + y) d xs

value_from-rev : (ds : List ℕ) → value_from 0 (rev ds) ≡ low_value ds
value_from-rev [] = refl
value_from-rev (d ∷ ds) = value_from-append 0 d (rev ds) ∙ omega (arith, value_from-rev ds)

digits-append : (xs : List ℕ) (d : ℕ) → AreDigits xs → d < 10 → AreDigits (xs ++ d ∷ [])
digits-append [] d a h = (h, tt)
digits-append (x ∷ xs) d a h = (a.0, digits-append xs d a.1 h)

digits-rev : (ds : List ℕ) → AreDigits ds → AreDigits (rev ds)
digits-rev [] a = tt
digits-rev (d ∷ ds) a = digits-append (rev ds) d (digits-rev ds a.1) a.0

-- Memory holds a text and its terminator at `p`.
abbrev pub HasText : Bytes → ℕ → List ℕ → Type 0
HasText mem p text = (i : ℕ) → i ≤ length text → mem (p + i) ≡ get_or text i 0

add_zero : (p : ℕ) → p ≡ p + 0
add_zero p = omega arith

chars-Holds :
    (ds : List ℕ) (mem : Bytes) (p : ℕ) → AreDigits ds → HasText mem p (chars ds) → Holds mem p ds
chars-Holds [] mem p a h = ap is_digit (ap mem (add_zero p) ∙ h 0 (omega arith))
chars-Holds (d ∷ ds) mem p a h = (
  a.0,
  first ∙ ground (arith, a.0),
  chars-Holds ds mem (p + 1) a.1 (λ i l. ap mem (shift p i) ∙ h (suc i) (omega (arith, l))),
)
  where
    shift : (p i : ℕ) → p + 1 + i ≡ p + suc i
    shift p i = omega arith

    first : mem p ≡ digit d
    first = ap mem (add_zero p) ∙ h 0 (omega arith)

chars-Spaced :
    (ds : List ℕ) (mem : Bytes) (p : ℕ)
    → AreDigits ds
    → 0 < value_from 0 ds
    → HasText mem p (chars ds)
    → Spaced mem p 0 ds
chars-Spaced [] mem p a v h = absurd (omega (arith, v))
chars-Spaced (d ∷ ds) mem p a v h = (
  (let (small, here, rest) = chars-Holds (d ∷ ds) mem p a h in ground (arith, here)),
  chars-Holds (d ∷ ds) mem p a h,
)

-- What `itoa` gives of a positive int, by its digits.
itoa-low_value :
    (v : ℕ)
    → v < 2 ^ 31
    → (ds : List ℕ) × (itoa v 10 ≡ ok (rev (chars ds))) × AreDigits ds × (low_value ds ≡ v)
unfolding itoa
itoa-low_value v h =
    let (ds, is, small, value) = digit_loop-low_value 32 v (omega (arith, h)) in
    let plus : is_neg32 v ≡ false = ground (arith, h) in
    (ds, rw (plus, is) (ap ok (swap_loop-rev (chars ds))), small, value)

-- A positive int below 2 ^ 31 - 48: `itoa` prints it, and `atoi` gives it back from wherever the text stands in
-- memory with its terminator.
pub atoi-itoa :
    (v : ℕ)
    → 0 < v
    → v + 48 < 2 ^ 31
    → (text : List ℕ) × (itoa v 10 ≡ ok text)
      × ((fuel : ℕ) (mem : Bytes) (p : ℕ)
          → HasText mem p text
          → length text < fuel
          → atoi fuel mem p ≡ ok v)
atoi-itoa v pos h =
    let (ds, is, small, value) = itoa-low_value v (omega (arith, h)) in
    let is_v : value_from 0 (rev ds) ≡ v = value_from-rev ds ∙ value in
    (
      chars (rev ds),
      is ∙ ap ok (sym (chars-rev ds)),
      λ fuel mem p holds room.
          atoi_lem fuel mem p 0 (rev ds)
            (chars-Spaced (rev ds) mem p (digits-rev ds small) (omega (arith, is_v, pos)) holds)
            (omega (arith, room, length-chars (rev ds))) (omega (arith, is_v, h))
          ∙ ap ok is_v,
    )
