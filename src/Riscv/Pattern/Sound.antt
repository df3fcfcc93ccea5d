-- ===== src/Riscv/Pattern/Sound.antt =====
-- A decoded pattern accepts exactly the instruction words whose bits are those that the pattern
-- writes (nemu/include/cpu/decode.h).
use native.Mathlib.Numerals.{add-one}
use native.Mathlib.Decide.{ℕ_discrete}
use native.Mathlib.Nat.{
  mod-eq_of_lt, pow-le-pow_right, pow-suc, one-le-pow, mul-div_left, div-div-eq-div-mul, div-one,
}
use my_oscpu.Base.{
  ◌⊎◌, subst, Fault, ap₂, >>=-eq-ok, ℕ, zero, suc, ◌+◌, ◌*◌, ◌/◌, ◌%◌, ◌^◌, ◌≤◌, ◌<◌, ◌≡◌, refl,
  sym, ap, ◌∙◌, arith, Bool, true, false, ◌&&◌, ◌||◌, ◌==◌, ==_refl, ==_false, if◌then◌else◌,
  Bool-cases, List, [], ◌∷◌, bit_and, bit_or, u64, ok, err, inl, inr,
}
use my_oscpu.Base.Bits.{bit_and_step, bit_or_fields, mul-two-pow-suc, bit_and-zero}
use my_oscpu.Riscv.Pattern.{
  Decoded, decode_char, is_pattern_char, decode_loop, finish, pattern_decode, instpat_test,
}

-- What a pattern means, from its last character on: `?` takes any bit, another character the bit
-- that it writes.
abbrev pub fits_char : ℕ → ℕ → Bool
fits_char c bit = c == b'?' || bit + b'0' == c

abbrev pub fits : List ℕ → ℕ → Bool
fits [] w = true
fits (c ∷ cs) w = fits_char c (w % 2) && fits cs (w / 2)

-- The characters of a pattern without its spaces, last first.
abbrev pub symbols_onto : List ℕ → List ℕ → List ℕ
symbols_onto [] acc = acc
symbols_onto (c ∷ cs) acc = symbols_onto cs (if c == b' ' then acc else c ∷ acc)

abbrev pub symbols : List ℕ → List ℕ
symbols str = symbols_onto str []

div-two-pow : (s w : ℕ) → w / 2 / 2 ^ s ≡ w / 2 ^ suc s
div-two-pow s w = div-div-eq-div-mul w 2 (2 ^ s) ∙ ap (λ t. w / t) (omega (arith, pow-suc 2 s))

bit_and_shifted : (s w m : ℕ) → bit_and w (m * 2 ^ s) ≡ bit_and (w / 2 ^ s) m * 2 ^ s
bit_and_shifted zero w m = rw div-one (ap (bit_and w) (one (m)) ∙ sym (one (bit_and w m)))
  where
    one : (k : ℕ) → k * 1 ≡ k
    one k = omega arith
bit_and_shifted (suc s) w m =
    let low : bit_and (w / 2) (m * 2 ^ s) ≡ bit_and (w / 2 ^ suc s) m * 2 ^ s =
      bit_and_shifted s (w / 2) m ∙ ap (λ t. bit_and t m * 2 ^ s) (div-two-pow s w) in
    ap (bit_and w) (mul-two-pow-suc m s)
    ∙ double w (m * 2 ^ s)
    ∙ ap (λ t. 2 * t) low
    ∙ sym (mul-two-pow-suc (bit_and (w / 2 ^ suc s) m) s)
  where
    half : (k : ℕ) → 2 * k / 2 ≡ k
    half k = omega arith

    double : (w k : ℕ) → bit_and w (2 * k) ≡ 2 * bit_and (w / 2) k
    double w k = omega (arith, bit_and_step w (2 * k), ap (bit_and (w / 2)) (half k))

-- What holds of the accumulators when the symbols `rs` have been read (`n` of them).
record IsRead (rs : List ℕ) (n : ℕ) (d : Decoded) : Type 0 where
  key : ℕ
  mask : ℕ
  key_shifted : d.key ≡ key * 2 ^ d.shift
  mask_shifted : d.mask ≡ mask * 2 ^ d.shift
  key_lt : d.key < 2 ^ n
  mask_lt : d.mask < 2 ^ n
  test : (w : ℕ) → (bit_and (w / 2 ^ d.shift) mask == key) ≡ fits rs w

two-pow-add-one : (s : ℕ) → 2 ^ (s + 1) ≡ 2 * 2 ^ s
two-pow-add-one s = rw add-one (omega (arith, pow-suc 2 s))

mul-two-pow-add-one : (q s : ℕ) → q * 2 ^ (s + 1) ≡ 2 * (q * 2 ^ s)
mul-two-pow-add-one q s = rw add-one (mul-two-pow-suc q s)

==-mul_right : (x y p : ℕ) → 0 < p → (x * p == y * p) ≡ (x == y)
==-mul_right x y p h = elim (ℕ_discrete x y) [
  | yes e ↦ rw e (==_refl (y * p) ∙ sym (==_refl y))
  | no ne ↦ ==_false (x * p) (y * p) (λ e. ne (cancel e)) ∙ sym (==_false x y ne)
]
  where
    cancel : x * p ≡ y * p → x ≡ y
    cancel e = sym (mul-div_left x h) ∙ ap (λ t. t / p) e ∙ mul-div_left y h

digit_test :
    (x k bit b : ℕ)
    → bit < 2
    → b < 2
    → (x * 2 + bit == k * 2 + b) ≡ (fits_char (b + b'0') bit && x == k)
digit_test x k bit b h hb = ground arith

module _ (n : ℕ) (small : n < 64) where
  doubled : (k b : ℕ) → k < 2 ^ n → b < 2 → bit_or (u64 (k * 2)) b ≡ k * 2 + b
  doubled k b h hb =
      let fits64 : k * 2 < 2 ^ 64 =
        omega (arith, pow-le-pow_right {n = 2} (omega arith) {i = n} {j = 63} (omega arith)) in
      ap (λ t. bit_or t b) (mod-eq_of_lt fits64) ∙ bit_or_fields 1 k b (omega arith)

  module _ {rs : List ℕ} {d : Decoded} (r : IsRead rs n d) where
    IsRead-any : IsRead (b'?' ∷ rs) (suc n) (decode_char b'?' d)
    unfolding decode_char
    IsRead-any = record {
      key = r.key;
      mask = r.mask;
      key_shifted = omega (
        arith,
        doubled d.key 0 r.key_lt (omega arith),
        r.key_shifted,
        mul-two-pow-add-one r.key d.shift,
      );
      mask_shifted = omega (
        arith,
        doubled d.mask 0 r.mask_lt (omega arith),
        r.mask_shifted,
        mul-two-pow-add-one r.mask d.shift,
      );
      key_lt = omega (arith, doubled d.key 0 r.key_lt (omega arith), pow-suc 2 n, r.key_lt);
      mask_lt = omega (arith, doubled d.mask 0 r.mask_lt (omega arith), pow-suc 2 n, r.mask_lt);
      test = λ w.
          ap (λ t. bit_and t r.mask == r.key)
            (ap (λ t. w / t) (two-pow-add-one d.shift) ∙ sym (div-div-eq-div-mul w 2 (2 ^ d.shift)))
          ∙ r.test (w / 2);
    }

    IsRead-digit :
        (b : ℕ)
        → b < 2
        → IsRead ((b + b'0') ∷ rs) (suc n) (record {
          key = bit_or (u64 (d.key * 2)) b;
          mask = bit_or (u64 (d.mask * 2)) 1;
          shift = 0;
        })
    IsRead-digit b hb = record {
      key = bit_or (u64 (d.key * 2)) b;
      mask = bit_or (u64 (d.mask * 2)) 1;
      key_shifted = omega arith;
      mask_shifted = omega arith;
      key_lt = omega (arith, doubled d.key b r.key_lt hb, pow-suc 2 n, r.key_lt);
      mask_lt = omega (arith, doubled d.mask 1 r.mask_lt (omega arith), pow-suc 2 n, r.mask_lt);
      test = test_digit;
    }
      where
        test_digit :
            (w : ℕ)
            → (bit_and (w / 2 ^ 0) (bit_or (u64 (d.mask * 2)) 1) == bit_or (u64 (d.key * 2)) b)
              ≡ fits ((b + b'0') ∷ rs) w
        test_digit w =
            rw (doubled d.key b r.key_lt hb, doubled d.mask 1 r.mask_lt (omega arith), div-one w)
              (ap (λ t. t == d.key * 2 + b) low
                ∙ digit_test (bit_and (w / 2) d.mask) d.key (w % 2) b (omega arith) hb
                ∙ ap (λ t. fits_char (b + b'0') (w % 2) && t) rest)
          where
            half : (d.mask * 2 + 1) / 2 ≡ d.mask
            half = omega arith

            low : bit_and w (d.mask * 2 + 1) ≡ bit_and (w / 2) d.mask * 2 + w % 2
            low = omega (arith, bit_and_step w (d.mask * 2 + 1), ap (bit_and (w / 2)) half)

            rest : (bit_and (w / 2) d.mask == d.key) ≡ fits rs (w / 2)
            rest =
                ap (λ t. t == d.key)
                  (ap (bit_and (w / 2)) r.mask_shifted ∙ bit_and_shifted d.shift (w / 2) r.mask)
                ∙ ap (λ t. bit_and (w / 2 / 2 ^ d.shift) r.mask * 2 ^ d.shift == t) r.key_shifted
                ∙ ==-mul_right (bit_and (w / 2 / 2 ^ d.shift) r.mask) r.key (2 ^ d.shift)
                    (one-le-pow d.shift 2 (omega arith))
                ∙ r.test (w / 2)

    IsRead-decode_char :
        (c : ℕ) → is_pattern_char c ≡ true → IsRead (c ∷ rs) (suc n) (decode_char c d)
    unfolding decode_char
    IsRead-decode_char c p = elim (char_cases c p) [
      | inl zero_char ↦
          subst (λ t. IsRead (t ∷ rs) (suc n) (decode_char t d)) (sym zero_char)
            (IsRead-digit 0 (omega arith))
      | inr (inl one_char) ↦
          subst (λ t. IsRead (t ∷ rs) (suc n) (decode_char t d)) (sym one_char)
            (IsRead-digit 1 (omega arith))
      | inr (inr any_char) ↦
          subst (λ t. IsRead (t ∷ rs) (suc n) (decode_char t d)) (sym any_char) IsRead-any
    ]
      where
        char_cases : (c : ℕ) → is_pattern_char c ≡ true → (c ≡ b'0') ⊎ ((c ≡ b'1') ⊎ (c ≡ b'?'))
        char_cases c p = ground arith

decode_loop-space :
    (fuel c : ℕ) (str : List ℕ) (d : Decoded)
    → (c == b' ') ≡ true
    → decode_loop (suc fuel) (c ∷ str) d ≡ decode_loop fuel str d
unfolding decode_loop
decode_loop-space fuel c str d h = rw (h, decode_loop)

decode_loop-symbol :
    (fuel c : ℕ) (str : List ℕ) (d : Decoded) {d' : Decoded}
    → (c == b' ') ≡ false
    → decode_loop (suc fuel) (c ∷ str) d ≡ ok d'
    → (is_pattern_char c ≡ true) × (decode_loop fuel str (decode_char c d) ≡ ok d')
unfolding decode_loop
decode_loop-symbol fuel c str d h e = elim (Bool-cases (is_pattern_char c)) [
  | inl good ↦ (good, rw (h, good, decode_loop) at e)
  | inr bad ↦ absurd (err_ok (rw (h, bad, decode_loop) at e))
]
  where
    err_ok : {A : Type 0} {f : Fault} {a : A} → err f ≡ ok a → ⊥
    err_ok e = cc

decode_loop-IsRead :
    (fuel n : ℕ) (str rs : List ℕ) {d d' : Decoded}
    → n + fuel ≤ 64
    → IsRead rs n d
    → decode_loop fuel str d ≡ ok d'
    → (n' : ℕ) × IsRead (symbols_onto str rs) n' d'
decode_loop-IsRead zero n str rs h r e = unfold decode_loop in absurd (err_ok e)
  where
    err_ok : {A : Type 0} {f : Fault} {a : A} → err f ≡ ok a → ⊥
    err_ok e = cc
decode_loop-IsRead (suc fuel) n [] rs {d} {d'} h r e =
    let same : d ≡ d' = unfold decode_loop in cc in (n, subst (IsRead rs n) same r)
decode_loop-IsRead (suc fuel) n (c ∷ str) rs {d} {d'} h r e = elim (Bool-cases (c == b' ')) [
  | inl space ↦ rw space (
      decode_loop-IsRead fuel n str rs (omega arith) r
        (sym (decode_loop-space fuel c str d space) ∙ e))
  | inr other ↦
      let (good, rest) = decode_loop-symbol fuel c str d other e in
      rw other (
        decode_loop-IsRead fuel (suc n) str (c ∷ rs) (omega arith)
          (IsRead-decode_char n (omega arith) r c good) rest)
]

IsRead-start : IsRead [] 0 (record { key = 0; mask = 0; shift = 0 })
IsRead-start = record {
  key = 0;
  mask = 0;
  key_shifted = refl;
  mask_shifted = refl;
  key_lt = omega arith;
  mask_lt = omega arith;
  test = λ w. rw bit_and-zero;
}

unshifted : (k q s : ℕ) → k ≡ q * 2 ^ s → k / 2 ^ s ≡ q
unshifted k q s e = ap (λ t. t / 2 ^ s) e ∙ mul-div_left q (one-le-pow s 2 (omega arith))

instpat_test-finish :
    {rs : List ℕ} {n : ℕ} {d : Decoded} (w : ℕ)
    → IsRead rs n d
    → instpat_test w (finish d) ≡ fits rs w
unfolding instpat_test finish
instpat_test-finish {d} w r =
    ap₂ (λ m k. bit_and (w / 2 ^ d.shift) m == k) (unshifted d.mask r.mask d.shift r.mask_shifted)
      (unshifted d.key r.key d.shift r.key_shifted)
    ∙ r.test w

pattern_decode-inv :
    (str : List ℕ) {d : Decoded}
    → pattern_decode str ≡ ok d
    → (a : Decoded) × (decode_loop 64 str (record { key = 0; mask = 0; shift = 0 }) ≡ ok a)
      × (finish a ≡ d)
unfolding pattern_decode
pattern_decode-inv str e =
    let (a, run, done) = >>=-eq-ok (decode_loop 64 str _) (λ d. ok (finish d)) e in
    (a, run, injective done)
  where
    injective : {A : Type 0} {a b : A} → ok a ≡ ok b → a ≡ b
    injective e = cc

-- A pattern that `pattern_decode` accepts is matched by exactly the words that fit it: the shifted,
-- masked comparison of `INSTPAT` is the comparison of each written bit, for every word.
pub instpat_test-pattern_decode :
    (str : List ℕ) {d : Decoded} (w : ℕ)
    → pattern_decode str ≡ ok d
    → instpat_test w d ≡ fits (symbols str) w
instpat_test-pattern_decode str {d} w e =
    let (a, run, done) = pattern_decode-inv str e in
    let (n, r) = decode_loop-IsRead 64 0 str [] (omega arith) IsRead-start run in
    subst (λ t. instpat_test w t ≡ fits (symbols str) w) done (instpat_test-finish w r)
