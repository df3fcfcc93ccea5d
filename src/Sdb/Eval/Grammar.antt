-- ===== src/Sdb/Eval/Grammar.antt =====
-- The language of expressions without signs, pointers and `!`: numbers, registers, brackets and binary
-- operators, by precedence and from the left, with their values. It is independent of the scan for a
-- main operator by which `eval` of nemu/src/monitor/sdb/expr.c works.
pub mod Passes
pub mod Scan
pub mod Value
use my_oscpu.Base.{ℕ, zero, suc, ◌≤◌, ◌≡◌, refl, ap, ◌∙◌, arith, List, [], ◌∷◌, ◌++◌, ok}
use mathlib.Core.List.{append_assoc}
use my_oscpu.Config.{Config}
use my_oscpu.Riscv.Machine.{Machine}
use my_oscpu.Sdb.Token.{TokenType, nums, hex, reg, lb, rb, Token, Libc, not_enclosed}
use my_oscpu.Sdb.Eval.{
  types_of, eval_single, apply_binary, get_operator_priority, paren_loop, check_parentheses,
}

pub data IsOperand : TokenType → Type 0 where
  number : IsOperand nums
  hex_number : IsOperand hex
  register : IsOperand reg

-- `Parse k seg v`: the segment has the value `v`, and its operators outside brackets have at least
-- priority `k`.
module _ {D : Type 0} (cfg : Config) (c : Libc) (m : Machine D) where
  pub data Parse : ℕ → List Token → ℕ → Type 0 where
    operand :
        {k v : ℕ} (t : Token)
        → k ≤ 6
        → IsOperand t.type
        → eval_single cfg c t.type t.str m ≡ ok (v, m)
        → Parse k (t ∷ []) v
    bracket :
        {k v : ℕ} {seg : List Token} (t u : Token)
        → k ≤ 6
        → t.type ≡ lb
        → u.type ≡ rb
        → Parse 0 seg v
        → Parse k (t ∷ seg ++ u ∷ []) v
    binary :
        {k a b v : ℕ} {l r : List Token} (o : Token)
        → k ≤ get_operator_priority o.type
        → get_operator_priority o.type ≤ 5
        → Parse (get_operator_priority o.type) l a
        → Parse (suc (get_operator_priority o.type)) r b
        → apply_binary o.type a b ≡ ok v
        → Parse k (l ++ o ∷ r) v

pub types-append : (l r : List Token) → types_of (l ++ r) ≡ types_of l ++ types_of r
types-append [] r = refl
types-append (t ∷ l) r = ap (λ x. t.type ∷ x) (types-append l r)

-- An operator is no bracket.
paren_loop-operator :
    (n : ℕ) (t : TokenType) (ts : List TokenType)
    → get_operator_priority t ≤ 5
    → paren_loop (suc n) (t ∷ ts) ≡ paren_loop (suc n) ts
unfolding paren_loop get_operator_priority
paren_loop-operator n t ts h = ground arith

paren_loop-operand :
    {t : TokenType} (n : ℕ) (ts : List TokenType)
    → IsOperand t
    → paren_loop (suc n) (t ∷ ts) ≡ paren_loop (suc n) ts
unfolding paren_loop
paren_loop-operand n ts number = refl
paren_loop-operand n ts hex_number = refl
paren_loop-operand n ts register = refl

paren_loop-rb :
    (n : ℕ) (t : TokenType) (ts : List TokenType)
    → t ≡ rb
    → paren_loop (suc (suc n)) (t ∷ ts) ≡ paren_loop (suc n) ts
unfolding paren_loop
paren_loop-rb n t ts e = rw e

paren_loop-lb :
    (n : ℕ) (t : TokenType) (ts : List TokenType)
    → t ≡ lb
    → paren_loop n (t ∷ ts) ≡ paren_loop (suc n) ts
unfolding paren_loop
paren_loop-lb zero t ts e = rw e
paren_loop-lb (suc zero) t ts e = rw e
paren_loop-lb (suc (suc n)) t ts e = rw e

module _ {D : Type 0} (cfg : Config) (c : Libc) (m : Machine D) where
  -- Inside brackets a segment of the language leaves the layer as it was.
  pub paren_loop-Parse :
      {k v : ℕ} {seg : List Token} (n : ℕ) (rest : List Token)
      → Parse cfg c m k seg v
      → paren_loop (suc n) (types_of (seg ++ rest)) ≡ paren_loop (suc n) (types_of rest)
  paren_loop-Parse n rest (operand t h o e) = paren_loop-operand n (types_of rest) o
  paren_loop-Parse n rest (bracket {seg} t u h e f p) =
      paren_loop-lb (suc n) t.type _ e
      ∙ ap (λ x. paren_loop (suc (suc n)) (types_of x)) (append_assoc seg (u ∷ []) rest)
      ∙ paren_loop-Parse (suc n) (u ∷ rest) p
      ∙ paren_loop-rb n u.type (types_of rest) f
  paren_loop-Parse n rest (binary {l} {r} o h g p q e) =
      ap (λ x. paren_loop (suc n) (types_of x)) (append_assoc l (o ∷ r) rest)
      ∙ paren_loop-Parse n (o ∷ r ++ rest) p
      ∙ paren_loop-operator n o.type (types_of (r ++ rest)) g
      ∙ paren_loop-Parse n rest q

  -- With something behind it, a segment of the language is not enclosed.
  pub not_enclosed-Parse :
      {k v : ℕ} {seg : List Token} (t : Token) (rest : List Token)
      → Parse cfg c m k seg v
      → check_parentheses (types_of (seg ++ t ∷ rest)) ≡ not_enclosed
  not_enclosed-Parse t rest (operand x h o e) = check-operand _ o
    where
      check-operand :
          {t : TokenType} (ts : List TokenType)
          → IsOperand t
          → check_parentheses (t ∷ ts) ≡ not_enclosed
      check-operand ts number = unfold check_parentheses in refl
      check-operand ts hex_number = unfold check_parentheses in refl
      check-operand ts register = unfold check_parentheses in refl
  not_enclosed-Parse t rest (bracket {seg} x u h e f p) =
      ap (λ y. check_parentheses (y ∷ types_of ((seg ++ u ∷ []) ++ t ∷ rest))) e ∙ check-loop _ loop
    where
      check-loop :
          (ts : List TokenType)
          → paren_loop (suc zero) ts ≡ not_enclosed
          → check_parentheses (lb ∷ ts) ≡ not_enclosed
      check-loop ts h = unfold check_parentheses in ground (arith, h)

      loop : paren_loop 1 (types_of ((seg ++ u ∷ []) ++ t ∷ rest)) ≡ not_enclosed
      loop =
          ap (λ y. paren_loop 1 (types_of y)) (append_assoc seg (u ∷ []) (t ∷ rest))
          ∙ paren_loop-Parse 0 (u ∷ t ∷ rest) p
          ∙ ap (λ y. paren_loop 1 (y ∷ t.type ∷ types_of rest)) f
          ∙ unfold paren_loop in refl
  not_enclosed-Parse t rest (binary {l} {r} o h g p q e) =
      ap (λ x. check_parentheses (types_of x)) (append_assoc l (o ∷ r) (t ∷ rest))
      ∙ not_enclosed-Parse o (r ++ t ∷ rest) p
