-- ===== src/Sdb/Eval/Grammar/Passes.antt =====
-- Steps of the scan for the main operator: over single tokens, over a segment, over one behind another.
use my_oscpu.Base.{
  ℕ, ◌+◌, ◌^◌, ◌≤◌, ◌<◌, ◌≡◌, ap, ◌∙◌, arith, List, [], ◌∷◌, ◌++◌, some, length, length-append,
  false, ◌==◌, add32, sub32,
}
use mathlib.Core.List.{append_assoc}
use my_oscpu.Sdb.Token.{TokenType, lb, rb, Token}
use my_oscpu.Sdb.Eval.{
  types_of, get_operator_priority, Scan, scan_token, scan_loop, scan_operator, int_max,
}
use my_oscpu.Sdb.Eval.Grammar.{IsOperand, number, hex_number, register}

-- The scan of a token inside brackets.
pub token_inside :
    (i : ℕ) (t : TokenType) (s : Scan)
    → get_operator_priority t ≤ 5
    → (s.parentheses_layer == 0) ≡ false
    → scan_token i t s ≡ s
unfolding scan_token scan_operator get_operator_priority
token_inside i t s h l = ground (arith, h, l)

pub operand_inside :
    {t : TokenType} (i : ℕ) (s : Scan)
    → IsOperand t
    → (s.parentheses_layer == 0) ≡ false
    → scan_token i t s ≡ s
unfolding scan_token scan_operator
operand_inside i s number l = ground (arith, l)
operand_inside i s hex_number l = ground (arith, l)
operand_inside i s register l = ground (arith, l)

abbrev pub deeper : Scan → Scan
deeper s = record s { parentheses_layer = add32 s.parentheses_layer 1 }

pub token_lb : (i : ℕ) (t : TokenType) (s : Scan) → t ≡ lb → scan_token i t s ≡ deeper s
unfolding scan_token
token_lb i t s e = rw e

pub token_rb :
    (i : ℕ) (t : TokenType) (s : Scan)
    → t ≡ rb
    → s.parentheses_layer + 1 < 2 ^ 32
    → scan_token i t (deeper s) ≡ s
unfolding scan_token
token_rb i t s e l = rw e (ap (λ n. record s { parentheses_layer = n }) back)
  where
    back : sub32 (add32 s.parentheses_layer 1) 1 ≡ s.parentheses_layer
    back = omega (arith, l)

-- The scan goes over `seg` and leaves `s'`.
abbrev pub Passes : List Token → Scan → Scan → Type 0
Passes seg s s' =
    (i : ℕ) (rest : List Token)
    → scan_loop i (types_of (seg ++ rest)) s ≡ scan_loop (i + length seg) (types_of rest) s'

pub Passes-one :
    (t : Token) (s s' : Scan) → ((i : ℕ) → scan_token i t.type s ≡ s') → Passes (t ∷ []) s s'
unfolding scan_loop
Passes-one t s s' step i rest = ap (scan_loop (i + 1) (types_of rest)) (step i)

pub Passes-append :
    (l r : List Token) (s s' s'' : Scan) → Passes l s s' → Passes r s' s'' → Passes (l ++ r) s s''
Passes-append l r s s' s'' p q i rest =
    ap (λ x. scan_loop i (types_of x) s) (append_assoc l r rest)
    ∙ p i (r ++ rest)
    ∙ q (i + length l) rest
    ∙ ap (λ n. scan_loop n (types_of rest) s'') total
  where
    total : i + length l + length r ≡ i + length (l ++ r)
    total = omega (arith, length-append l r)

pub deeper_inside :
    (s : Scan) → s.parentheses_layer + 1 < 2 ^ 32 → ((deeper s).parentheses_layer == 0) ≡ false
deeper_inside s h = ground (arith, h)

pub deeper_fits :
    (s : Scan) (seg : List Token)
    → s.parentheses_layer + 1 + length seg < 2 ^ 32
    → (deeper s).parentheses_layer + length seg < 2 ^ 32
deeper_fits s seg h = omega (arith, h)

pub Passes-bracket :
    (s : Scan) (t u : Token) (seg : List Token)
    → t.type ≡ lb
    → u.type ≡ rb
    → s.parentheses_layer + 1 < 2 ^ 32
    → Passes seg (deeper s) (deeper s)
    → Passes (t ∷ seg ++ u ∷ []) s s
Passes-bracket s t u seg e f b p =
    Passes-append (t ∷ []) (seg ++ u ∷ []) s (deeper s) s
      (Passes-one t s (deeper s) (λ i. token_lb i t.type s e))
      (Passes-append seg (u ∷ []) (deeper s) (deeper s) s p
        (Passes-one u (deeper s) s (λ i. token_rb i u.type s f b)))

-- The scan of a token outside brackets: it is the new main operator if its priority is not higher.
abbrev pub raised : ℕ → ℕ → Scan → Scan
raised i priority s = record s { op = some i; min_priority = priority }

pub token_higher :
    (i : ℕ) (t : TokenType) (s : Scan)
    → get_operator_priority t ≤ 5
    → s.min_priority < get_operator_priority t
    → scan_token i t s ≡ s
unfolding scan_token scan_operator get_operator_priority
token_higher i t s h l = ground (arith, h, l)

pub token_lower :
    (i : ℕ) (t : TokenType) (s : Scan)
    → get_operator_priority t ≤ 5
    → s.parentheses_layer ≡ 0
    → get_operator_priority t ≤ s.min_priority
    → scan_token i t s ≡ raised i (get_operator_priority t) s
unfolding scan_token scan_operator get_operator_priority
token_lower i t s h z l = ground (arith, h, z, l)

pub operand_higher :
    {t : TokenType} (i : ℕ) (s : Scan)
    → IsOperand t
    → s.min_priority < int_max
    → scan_token i t s ≡ s
unfolding scan_token scan_operator get_operator_priority
operand_higher i s number l = ground (arith, l)
operand_higher i s hex_number l = ground (arith, l)
operand_higher i s register l = ground (arith, l)

pub operand_lower :
    {t : TokenType} (i : ℕ) (s : Scan)
    → IsOperand t
    → s.parentheses_layer ≡ 0
    → int_max ≤ s.min_priority
    → scan_token i t s ≡ raised i int_max s
unfolding scan_token scan_operator get_operator_priority
operand_lower i s number z l = ground (arith, z, l)
operand_lower i s hex_number z l = ground (arith, z, l)
operand_lower i s register z l = ground (arith, z, l)

-- From index `i` the scan goes over `seg` and leaves `s'`.
abbrev pub PassesAt : ℕ → List Token → Scan → Scan → Type 0
PassesAt i seg s s' =
    (rest : List Token)
    → scan_loop i (types_of (seg ++ rest)) s ≡ scan_loop (i + length seg) (types_of rest) s'

pub PassesAt-one :
    (i : ℕ) (t : Token) (s s' : Scan) → scan_token i t.type s ≡ s' → PassesAt i (t ∷ []) s s'
unfolding scan_loop
PassesAt-one i t s s' step rest = ap (scan_loop (i + 1) (types_of rest)) step

pub PassesAt-append :
    (i : ℕ) (l r : List Token) (s s' s'' : Scan)
    → PassesAt i l s s'
    → PassesAt (i + length l) r s' s''
    → PassesAt i (l ++ r) s s''
PassesAt-append i l r s s' s'' p q rest =
    ap (λ x. scan_loop i (types_of x) s) (append_assoc l r rest)
    ∙ p (r ++ rest)
    ∙ q rest
    ∙ ap (λ n. scan_loop n (types_of rest) s'') total
  where
    total : i + length l + length r ≡ i + length (l ++ r)
    total = omega (arith, length-append l r)
