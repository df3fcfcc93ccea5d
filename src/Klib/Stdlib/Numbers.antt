-- ===== src/Klib/Stdlib/Numbers.antt =====
-- `atoi` against the value of a decimal numeral.
use my_oscpu.Base.{
  ℕ, zero, suc, ◌+◌, ◌-◌, ◌*◌, ◌^◌, ◌≤◌, ◌<◌, ◌≡◌, arith, true, false, ◌==◌, ltb, ok, List, [], ◌∷◌,
  length,
}
use my_oscpu.Memory.Bytes.{Bytes}
use my_oscpu.Klib.Stdlib.{atoi, atoi_spaces, atoi_digits, is_digit}

-- The numeral that continues one of value `x`.
abbrev pub value_from : ℕ → List ℕ → ℕ
value_from x [] = x
value_from x (d ∷ ds) = value_from (x * 10 + d) ds

-- Memory holds the characters of the digits, and behind them none.
abbrev pub Holds : Bytes → ℕ → List ℕ → Type 0
Holds mem p [] = is_digit (mem p) ≡ false
Holds mem p (d ∷ ds) = (d < 10) × (mem p ≡ d + b'0') × Holds mem (p + 1) ds

pub value_grows : (ds : List ℕ) (x : ℕ) → x ≤ value_from x ds
value_grows [] x = omega arith
value_grows (d ∷ ds) x = omega (arith, value_grows ds (x * 10 + d))

atoi_digits_lem :
    (fuel : ℕ) (mem : Bytes) (p x : ℕ) (ds : List ℕ)
    → Holds mem p ds
    → length ds < fuel
    → value_from x ds + 48 < 2 ^ 31
    → atoi_digits fuel mem p x ≡ ok (value_from x ds)
unfolding atoi_digits
atoi_digits_lem zero mem p x ds h l b = absurd (omega arith)
atoi_digits_lem (suc fuel) mem p x [] h l b = rw h
atoi_digits_lem (suc fuel) mem p x (d ∷ ds) h l b =
    let (small, here, rest) = h in
    let digit : is_digit (mem p) ≡ true = rw here (ground (arith, small)) in
    let fits : ltb (x * 10 + mem p) (2 ^ 31) ≡ true =
      ground (arith, here, b, value_grows ds (x * 10 + d)) in
    let next : x * 10 + mem p - b'0' ≡ x * 10 + d = omega (arith, here) in
    rw (digit, fits, next) (atoi_digits_lem fuel mem (p + 1) (x * 10 + d) ds rest (omega arith) b)

-- `n` spaces, then the digits.
abbrev pub Spaced : Bytes → ℕ → ℕ → List ℕ → Type 0
Spaced mem p zero ds = ((mem p == b' ') ≡ false) × Holds mem p ds
Spaced mem p (suc n) ds = (mem p ≡ b' ') × Spaced mem (p + 1) n ds

atoi_spaces_lem :
    (fuel : ℕ) (mem : Bytes) (p n : ℕ) (ds : List ℕ)
    → Spaced mem p n ds
    → n + length ds < fuel
    → value_from 0 ds + 48 < 2 ^ 31
    → atoi_spaces fuel mem p ≡ ok (value_from 0 ds)
unfolding atoi_spaces
atoi_spaces_lem zero mem p n ds h l b = absurd (omega arith)
atoi_spaces_lem (suc fuel) mem p zero ds h l b =
    rw h.0 (atoi_digits_lem (suc fuel) mem p 0 ds h.1 (omega arith) b)
atoi_spaces_lem (suc fuel) mem p (suc n) ds h l b =
    rw h.0 (atoi_spaces_lem fuel mem (p + 1) n ds h.1 (omega arith) b)

-- `atoi` of spaces and a decimal numeral gives its value, if that stays 48 below 2 ^ 31.
pub atoi_lem :
    (fuel : ℕ) (mem : Bytes) (p n : ℕ) (ds : List ℕ)
    → Spaced mem p n ds
    → n + length ds < fuel
    → value_from 0 ds + 48 < 2 ^ 31
    → atoi fuel mem p ≡ ok (value_from 0 ds)
unfolding atoi
atoi_lem fuel mem p n ds h l b = atoi_spaces_lem fuel mem p n ds h l b
