-- ===== src/Sdb/Eval/Grammar/Value.antt =====
-- `eval` gives every expression of the grammar its value.
use my_oscpu.Base.{
  ℕ, zero, suc, ◌+◌, ◌^◌, ◌<◌, ◌≡◌, refl, sym, ap, subst, ◌∙◌, arith, List, [], ◌∷◌, ◌++◌, none,
  some, length, length-append, true, take, drop, get_elem?, Result, ok,
}
use my_oscpu.Config.{Config}
use my_oscpu.Riscv.Machine.{Machine}
use my_oscpu.Sdb.Token.{TokenType, lb, rb, Token, Libc, enclosed, not_enclosed}
use my_oscpu.Sdb.Eval.{
  types_of, init_of, find_main_operator, check_parentheses, paren_loop, last_is_rb, eval, eval_step,
  eval_compound, eval_signed, eval_binary, apply_binary, signed_number,
}
use my_oscpu.Sdb.Eval.Grammar.{
  IsOperand, number, hex_number, register, Parse, operand, bracket, binary, paren_loop-Parse,
  not_enclosed-Parse,
}
use my_oscpu.Sdb.Eval.Grammar.Scan.{find_main_operator-Parse}

take-append : (l r : List Token) → take (length l) (l ++ r) ≡ l
take-append [] [] = refl
take-append [] (x ∷ r) = refl
take-append (x ∷ l) r = ap (λ t. x ∷ t) (take-append l r)

drop-append : (l : List Token) (o : Token) (r : List Token) → drop (length l + 1) (l ++ o ∷ r) ≡ r
drop-append l o r = ap (λ n. drop n (l ++ o ∷ r)) (next (length l)) ∙ go l
  where
    next : (n : ℕ) → n + 1 ≡ suc n
    next n = omega arith

    go : (l : List Token) → drop (suc (length l)) (l ++ o ∷ r) ≡ r
    go [] = nothing r
      where
        nothing : (r : List Token) → drop 0 r ≡ r
        nothing [] = refl
        nothing (x ∷ r) = refl
    go (x ∷ l) = go l

get_elem?-append :
    (l : List Token) (o : Token) (r : List Token) → get_elem? (l ++ o ∷ r) (length l) ≡ some o
get_elem?-append [] o r = refl
get_elem?-append (x ∷ l) o r = get_elem?-append l o r

init_of-append : (l : List Token) (u : Token) → init_of (l ++ u ∷ []) ≡ l
init_of-append [] u = refl
init_of-append (x ∷ []) u = refl
init_of-append (x ∷ y ∷ l) u = ap (λ t. x ∷ t) (init_of-append (y ∷ l) u)

last_is_rb-append :
    (x : TokenType) (l : List Token) (u : Token)
    → u.type ≡ rb
    → last_is_rb (x ∷ types_of (l ++ u ∷ [])) ≡ true
unfolding last_is_rb
last_is_rb-append x [] u e = rw e
last_is_rb-append x (y ∷ l) u e = last_is_rb-append y.type l u e

-- A token that starts no signed number.
abbrev Starts : TokenType → Type 0
Starts t = (c : Libc) (u : Token) → signed_number c t u ≡ none

Starts-operand : {t : TokenType} → IsOperand t → Starts t
unfolding signed_number
Starts-operand number c u = refl
Starts-operand hex_number c u = refl
Starts-operand register c u = refl

Starts-lb : (t : TokenType) → t ≡ lb → Starts t
unfolding signed_number
Starts-lb t e c u = rw e

module _ {D : Type 0} (cfg : Config) (c : Libc) (m : Machine D) where
  -- An expression has a first token, which is no sign.
  first_token :
      {k v : ℕ} {seg : List Token}
      → Parse cfg c m k seg v
      → (t : Token) × (rest : List Token) × (seg ≡ t ∷ rest) × Starts t.type
  first_token (operand t h o e) = (t, [], refl, Starts-operand o)
  first_token (bracket {seg} t u h e f p) = (t, seg ++ u ∷ [], refl, Starts-lb t.type e)
  first_token (binary {l} {r} o h g p q e) =
      let (t, rest, is, starts) = first_token p in
      (t, rest ++ o ∷ r, ap (λ x. x ++ o ∷ r) is, starts)

  enclosed-Parse :
      {v : ℕ} {seg : List Token} (t u : Token)
      → t.type ≡ lb
      → u.type ≡ rb
      → Parse cfg c m 0 seg v
      → check_parentheses (types_of (t ∷ seg ++ u ∷ [])) ≡ enclosed
  enclosed-Parse {seg} t u e f p =
      ap (λ y. check_parentheses (y ∷ types_of (seg ++ u ∷ []))) e
      ∙ both _ (last_is_rb-append lb seg u f) (
          paren_loop-Parse cfg c m 0 (u ∷ []) p
          ∙ ap (λ y. paren_loop 1 (y ∷ [])) f
          ∙ unfold paren_loop in refl)
    where
      both :
          (ts : List TokenType)
          → last_is_rb (lb ∷ ts) ≡ true
          → paren_loop 1 ts ≡ enclosed
          → check_parentheses (lb ∷ ts) ≡ enclosed
      both ts last loop = unfold check_parentheses paren_loop in rw (last) loop

module _ {D : Type 0} (cfg : Config) (c : Libc)
    (rec : List Token → Machine D → Result (ℕ × Machine D)) (m : Machine D) where
  -- The step at a segment that is not enclosed, whose main operator is not its first token.
  eval_step-not_enclosed :
      (t : Token) (l : List Token) (o : Token) (r : List Token)
      → check_parentheses (types_of (t ∷ l ++ o ∷ r)) ≡ not_enclosed
      → find_main_operator (types_of (t ∷ l ++ o ∷ r)) ≡ some (suc (length l))
      → Starts t.type
      → eval_step cfg c rec (t ∷ l ++ o ∷ r) m
        ≡ eval_binary cfg c rec (t ∷ l ++ o ∷ r) (some (suc (length l))) m
  unfolding eval_step eval_compound eval_signed
  eval_step-not_enclosed t [] o r check main starts = rw (check, main, starts c o)
  eval_step-not_enclosed t (u ∷ l) o r check main starts = rw (check, main, starts c u)

  eval_step-enclosed :
      (t : Token) (l : List Token) (u : Token) (x : Token) (xs : List Token)
      → l ≡ x ∷ xs
      → check_parentheses (types_of (t ∷ l ++ u ∷ [])) ≡ enclosed
      → eval_step cfg c rec (t ∷ l ++ u ∷ []) m ≡ rec l m
  eval_step-enclosed t l u x xs is check =
      subst
        (λ k.
          check_parentheses (types_of (t ∷ k ++ u ∷ [])) ≡ enclosed
          → eval_step cfg c rec (t ∷ k ++ u ∷ []) m ≡ rec k m)
        (sym is) step check
    where
      step :
          check_parentheses (types_of (t ∷ x ∷ xs ++ u ∷ [])) ≡ enclosed
          → eval_step cfg c rec (t ∷ x ∷ xs ++ u ∷ []) m ≡ rec (x ∷ xs) m
      step h =
          unfold eval_step eval_compound in rw h (ap (λ k. rec k m) (init_of-append (x ∷ xs) u))

  eval_binary-append :
      {a b v : ℕ} (l : List Token) (o : Token) (r : List Token)
      → rec l m ≡ ok (a, m)
      → rec r m ≡ ok (b, m)
      → apply_binary o.type a b ≡ ok v
      → eval_binary cfg c rec (l ++ o ∷ r) (some (length l)) m ≡ ok (v, m)
  unfolding eval_binary
  eval_binary-append l o r left right value =
      rw (take-append l (o ∷ r), left, drop-append l o r, right, get_elem?-append l o r, value)

module _ {D : Type 0} (cfg : Config) (c : Libc) (m : Machine D) where
  -- `eval` of a segment of fewer than 2 ^ 32 tokens that the grammar derives with a value returns that
  -- value and changes nothing, with fuel above the number of its tokens: brackets first, then the operators by their precedence,
  -- equal ones from the left.
  pub eval-Parse :
      {k v : ℕ} {seg : List Token} (fuel : ℕ)
      → Parse cfg c m k seg v
      → length seg < fuel
      → length seg < 2 ^ 32
      → eval cfg c fuel seg m ≡ ok (v, m)
  unfolding eval
  eval-Parse zero p l b = absurd (omega arith)
  eval-Parse (suc fuel) (operand t h o e) l b = unfold eval_step in e
  eval-Parse (suc fuel) (bracket {seg} t u h e f p) l b =
      let sizes : length (seg ++ u ∷ []) ≡ length seg + 1 = length-append seg (u ∷ []) in
      let (x, xs, is, starts) = first_token cfg c m p in
      eval_step-enclosed cfg c (eval cfg c fuel) m t seg u x xs is
        (enclosed-Parse cfg c m t u e f p)
      ∙ eval-Parse fuel p (omega (arith, sizes, l)) (omega (arith, sizes, b))
  eval-Parse (suc fuel) (binary {l} {r} o h g p q e) less b =
      let sizes : length (l ++ o ∷ r) ≡ length l + suc (length r) = length-append l (o ∷ r) in
      let (x, xs, is, starts) = first_token cfg c m p in
      subst
        (λ k.
          check_parentheses (types_of (k ++ o ∷ r)) ≡ not_enclosed
          → find_main_operator (types_of (k ++ o ∷ r)) ≡ some (length k)
          → eval_step cfg c (eval cfg c fuel) (k ++ o ∷ r) m
            ≡ eval_binary cfg c (eval cfg c fuel) (k ++ o ∷ r) (some (length k)) m)
        (sym is)
        (λ check main. eval_step-not_enclosed cfg c (eval cfg c fuel) m x xs o r check main starts)
        (not_enclosed-Parse cfg c m o r p) (find_main_operator-Parse cfg c m o g p q b)
      ∙ eval_binary-append cfg c (eval cfg c fuel) m l o r
          (eval-Parse fuel p (omega (arith, sizes, less)) (omega (arith, sizes, b)))
          (eval-Parse fuel q (omega (arith, sizes, less)) (omega (arith, sizes, b))) e
