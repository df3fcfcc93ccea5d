-- ===== src/Sdb/Expr/Progress.antt =====
-- The loop of `make_token` ends, and its array never holds more tokens than it has places.
use my_oscpu.Base.{
  ℕ, zero, suc, ◌-◌, ◌≤◌, ◌<◌, ◌≡◌, ◌≢◌, refl, sym, ap, ◌∙◌, arith, Bool, true, if◌then◌else◌, ◌==◌,
  ltb, leb, not, ◌&&◌, List, [], ◌∷◌, Option, none, some, take, drop, length, length-append, Result,
  ok, err, out_of_fuel, ◌>>=◌, Bool-cases, inl, inr,
}
use Prim.Native.String.{String}
use my_oscpu.Sdb.Token.{
  TokenType, is_nums, notype, eq, nums, lb, rb, negative, pointer, positive, logic_and, logic_or,
  logic_not, noteq, reg, hex, le, ge, lt, gt, plus, minus, star, slash, Rule, rules, Token, Libc,
}
use my_oscpu.Sdb.Expr.{
  max_tokens, find_rule, make_token, record_token, append_token, final_type, count_signs,
  expects_operand, last_type, is_division,
}

-- A match is not empty, as none of the rules' expressions matches the empty text.
abbrev pub NotEmpty : Libc → Type 0
NotEmpty c = (p : String) (text : List ℕ) (so eo : ℕ) → c.regexec p text ≡ some (so, eo) → so < eo

find_rule_length :
    (c : Libc) (rs : List Rule) (text : List ℕ) {r : Rule} {len : ℕ}
    → NotEmpty c
    → find_rule c rs text ≡ some (r, len)
    → 1 ≤ len
unfolding find_rule
find_rule_length c [] text n e = absurd (no_rule e)
  where
    no_rule : {x : Rule × ℕ} → none ≡ some x → ⊥
    no_rule e = cc
find_rule_length c (r ∷ rs) text n e =
    pick (c.regexec r.regex text) refl (find_rule_length c rs text n) e
  where
    length_of : Option (Rule × ℕ) → ℕ
    length_of none = 0
    length_of (some (x, a)) = a

    second :
        {q : Rule} {len : ℕ} (so eo : ℕ) (rest : Option (Rule × ℕ))
        → (so == 0) ≡ true
        → (if so == 0 then some (r, eo) else rest) ≡ some (q, len)
        → eo ≡ len
    second so eo rest first e =
        let taken : (if so == 0 then some (r, eo) else rest) ≡ some (r, eo) = rw first refl in
        ap length_of (sym taken ∙ e)

    pick :
        {q : Rule} {len : ℕ} (o : Option (ℕ × ℕ))
        → c.regexec r.regex text ≡ o
        → (find_rule c rs text ≡ some (q, len) → 1 ≤ len)
        → elim o [
          | none ↦ find_rule c rs text
          | some (so, eo) ↦ if so == 0 then some (r, eo) else find_rule c rs text
        ]
          ≡ some (q, len)
        → 1 ≤ len
    pick none is later e = later e
    pick (some (so, eo)) is later e = elim (Bool-cases (so == 0)) [
      | inl first ↦
          omega (arith, n r.regex text so eo is, second so eo (find_rule c rs text) first e)
      | inr behind ↦ later (ground (arith, e, behind))
    ]

length-count_signs : (text : List ℕ) → length (count_signs text).1 ≤ length text
unfolding count_signs
length-count_signs [] = omega arith
length-count_signs (ch ∷ text) = ground (arith, length-count_signs text)

length-final_type :
    (t : TokenType) (b : Bool) (text : List ℕ) → length (final_type t b text).1 ≤ length text
unfolding final_type
length-final_type t b text = ground (arith, length-count_signs text)

length-drop : (n : ℕ) (text : List ℕ) → length (drop n text) ≤ length text - n
length-drop zero [] = omega arith
length-drop zero (x ∷ text) = omega arith
length-drop (suc n) [] = omega arith
length-drop (suc n) (x ∷ text) = omega (arith, length-drop n text)

-- What one token leaves: no more tokens than places, and no more text than before.
abbrev Recorded : List ℕ → Result (List Token × List ℕ) → Type 0
Recorded text (ok (toks, rest)) = (length toks ≤ max_tokens) × (length rest ≤ length text)
Recorded text (err f) = f ≢ out_of_fuel

append_token-Recorded :
    (c : Libc) (t : TokenType) (str : List ℕ) (toks : List Token) (text : List ℕ)
    → Recorded text (append_token c t str toks text)
unfolding append_token
append_token-Recorded c t str toks text = elim (Bool-cases (ltb (length toks) max_tokens)) [
  | inr full ↦ rw full (λ e. cc)
  | inl room ↦
      elim (Bool-cases (not (is_division (last_type toks) && is_nums t && (c.atoi str == 0)))) [
        | inr zero_divisor ↦ rw (room, zero_divisor) (λ e. cc)
        | inl fine ↦
            rw (room, fine)
              (
                omega (
                  arith,
                  length-append toks (
                      record {
                        type = (final_type t (expects_operand (last_type toks)) text).0;
                        str = str;
                      }
                      ∷ []),
                  below toks room,
                ),
                length-final_type t (expects_operand (last_type toks)) text,
              )
      ]
]
  where
    below : (toks : List Token) → ltb (length toks) max_tokens ≡ true → length toks < 64
    below toks h = ground (arith, h)

record_token-Recorded :
    (c : Libc) (t : TokenType) (str : List ℕ) (toks : List Token) (text : List ℕ)
    → length toks ≤ max_tokens
    → Recorded text (record_token c t str toks text)
unfolding record_token
record_token-Recorded c notype str toks text h = (h, omega arith)
record_token-Recorded c eq str toks text h = append_token-Recorded c eq str toks text
record_token-Recorded c nums str toks text h = append_token-Recorded c nums str toks text
record_token-Recorded c lb str toks text h = append_token-Recorded c lb str toks text
record_token-Recorded c rb str toks text h = append_token-Recorded c rb str toks text
record_token-Recorded c negative str toks text h = append_token-Recorded c negative str toks text
record_token-Recorded c pointer str toks text h = append_token-Recorded c pointer str toks text
record_token-Recorded c positive str toks text h = append_token-Recorded c positive str toks text
record_token-Recorded c logic_and str toks text h = append_token-Recorded c logic_and str toks text
record_token-Recorded c logic_or str toks text h = append_token-Recorded c logic_or str toks text
record_token-Recorded c logic_not str toks text h = append_token-Recorded c logic_not str toks text
record_token-Recorded c noteq str toks text h = append_token-Recorded c noteq str toks text
record_token-Recorded c reg str toks text h = append_token-Recorded c reg str toks text
record_token-Recorded c hex str toks text h = append_token-Recorded c hex str toks text
record_token-Recorded c le str toks text h = append_token-Recorded c le str toks text
record_token-Recorded c ge str toks text h = append_token-Recorded c ge str toks text
record_token-Recorded c lt str toks text h = append_token-Recorded c lt str toks text
record_token-Recorded c gt str toks text h = append_token-Recorded c gt str toks text
record_token-Recorded c plus str toks text h = append_token-Recorded c plus str toks text
record_token-Recorded c minus str toks text h = append_token-Recorded c minus str toks text
record_token-Recorded c star str toks text h = append_token-Recorded c star str toks text
record_token-Recorded c slash str toks text h = append_token-Recorded c slash str toks text

-- What the loop leaves: it ends, with no more tokens than places.
abbrev pub Ends : Result (Option (List Token)) → Type 0
Ends (ok none) = Unit {0}
Ends (ok (some toks)) = length toks ≤ max_tokens
Ends (err f) = f ≢ out_of_fuel

-- The rest of the loop behind a token.
Ends-bind :
    (fuel : ℕ) (c : Libc) (text : List ℕ) (r : Result (List Token × List ℕ))
    → ((toks : List Token) (rest : List ℕ)
        → length toks ≤ max_tokens
        → length rest < fuel
        → Ends (make_token fuel c toks rest))
    → Recorded text r
    → length text < fuel
    → Ends (r >>= λ next. make_token fuel c next.0 next.1)
Ends-bind fuel c text (err f) loop h l = h
Ends-bind fuel c text (ok (toks, rest)) loop h l = loop toks rest h.0 (omega (arith, h.1, l))

-- Where no expression matches the empty text, `make_token` ends on every text, with fuel above its length:
-- with tokens that fit their array, where no rule matches, or at a fault.
pub make_token-Ends :
    (fuel : ℕ) (c : Libc) (toks : List Token) (text : List ℕ)
    → NotEmpty c
    → length toks ≤ max_tokens
    → length text < fuel
    → Ends (make_token fuel c toks text)
unfolding make_token
make_token-Ends zero c toks text n h l = absurd (omega arith)
make_token-Ends (suc fuel) c toks [] n h l = h
make_token-Ends (suc fuel) c toks (ch ∷ text) n h l =
    go (find_rule c rules (ch ∷ text)) (λ r len e. find_rule_length c rules (ch ∷ text) n e)
      (λ toks' rest h' l'. make_token-Ends fuel c toks' rest n h' l')
  where
    go :
        (o : Option (Rule × ℕ))
        → ((r : Rule) (len : ℕ) → o ≡ some (r, len) → 1 ≤ len)
        → ((toks : List Token) (rest : List ℕ)
            → length toks ≤ max_tokens
            → length rest < fuel
            → Ends (make_token fuel c toks rest))
        → Ends (elim o [
          | none ↦ ok none
          | some (r, len) ↦
              record_token c r.token_type
                (take (if leb 32 len then 31 else len) (ch ∷ text))
                toks
                (drop len (ch ∷ text))
              >>= λ next. make_token fuel c next.0 next.1
        ])
    go none long loop = tt
    go (some (r, len)) long loop =
        Ends-bind fuel c (drop len (ch ∷ text)) _ loop
          (record_token-Recorded c r.token_type _ toks (drop len (ch ∷ text)) h)
          (omega (arith, l, long r len refl, length-drop len (ch ∷ text)))
