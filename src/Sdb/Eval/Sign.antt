-- ===== src/Sdb/Eval/Sign.antt =====
-- What `eval` makes of a sign before a number with more behind it.
use my_oscpu.Base.{
  ℕ, zero, suc, ◌+◌, ◌≤◌, ◌≡◌, ◌≢◌, refl, sym, subst, ◌∙◌, Result, arith, List, [], ◌∷◌, Option,
  none, some, ok, neg32,
}
use my_oscpu.Config.{Config}
use my_oscpu.Riscv.Machine.{Machine}
use my_oscpu.Sdb.Token.{TokenType, nums, negative, Token, Libc, not_enclosed}
use my_oscpu.Sdb.Eval.{
  types_of, find_main_operator, check_parentheses, eval, eval_step, eval_compound, eval_signed,
  signed_number, Scan, scan_token, scan_operator, scan_loop, scan_start,
}

token_not_first :
    (i : ℕ) (t : TokenType) (s : Scan) → 1 ≤ i → s.op ≢ some 0 → (scan_token i t s).op ≢ some 0
unfolding scan_token scan_operator
token_not_first i t s h n = ground (arith, n)

loop_not_first :
    (i : ℕ) (ts : List TokenType) (s : Scan)
    → 1 ≤ i
    → s.op ≢ some 0
    → (scan_loop i ts s).op ≢ some 0
unfolding scan_loop
loop_not_first i [] s h n = n
loop_not_first i (t ∷ ts) s h n =
    loop_not_first (i + 1) ts (scan_token i t s) (omega arith) (token_not_first i t s h n)

not_first : (ts : List TokenType) → find_main_operator (negative ∷ ts) ≢ some 0
unfolding find_main_operator scan_loop scan_token scan_operator
not_first ts = loop_not_first 1 ts scan_start (omega arith) different
  where
    nothing : Option ℕ
    nothing = none

    different : nothing ≢ some 0
    different e = cc

module _ {D : Type 0} (cfg : Config) (c : Libc) (m : Machine D) where
  compound_signed :
      (rec : List Token → Machine D → Result (ℕ × Machine D)) (t u : Token) (ts : List Token)
      (op : Option ℕ)
      → t.type ≡ negative
      → u.type ≡ nums
      → op ≢ some 0
      → eval_compound cfg c rec t u ts not_enclosed op m ≡ ok (neg32 (c.atoi u.str), m)
  unfolding eval_compound eval_signed signed_number
  compound_signed rec t u ts none e f n = rw (e, f)
  compound_signed rec t u ts (some zero) e f n = absurd (n refl)
  compound_signed rec t u ts (some (suc op)) e f n = rw (e, f)

  -- `eval` of a negative sign and a number gives minus that number, whatever stands behind them: the
  -- rest of the expression is neither evaluated nor tested.
  pub eval-negative :
      (fuel : ℕ) (t u : Token) (rest : List Token)
      → t.type ≡ negative
      → u.type ≡ nums
      → eval cfg c (suc fuel) (t ∷ u ∷ rest) m ≡ ok (neg32 (c.atoi u.str), m)
  eval-negative fuel t u rest e f =
      step
      ∙ compound_signed (eval cfg c fuel) t u rest (find_main_operator (types_of (t ∷ u ∷ rest))) e
          f
          (subst (λ k. find_main_operator (k ∷ types_of (u ∷ rest)) ≢ some 0) (sym e)
            (not_first (types_of (u ∷ rest))))
    where
      check : check_parentheses (types_of (t ∷ u ∷ rest)) ≡ not_enclosed
      check = unfold check_parentheses in rw e refl

      step :
          eval cfg c (suc fuel) (t ∷ u ∷ rest) m
          ≡ eval_compound cfg c
              (eval cfg c fuel)
              t
              u
              rest
              not_enclosed
              (find_main_operator (types_of (t ∷ u ∷ rest)))
              m
      step = unfold eval eval_step in rw check
