-- ===== src/Tests/Sdb.antt =====
-- Expressions of the debugger: `1 + 2 * 3`, and `-2 + 3`.
use my_oscpu.Base.{
  Bool, true, false, ℕ, ◌+◌, ◌-◌, ◌^◌, ◌≤◌, ◌≡◌, refl, sym, ap, ◌∙◌, arith, List, [], ◌∷◌, Option,
  none, some, ok, codes, Halts, leb, ◌==◌, ◌&&◌, if◌then◌else◌,
}
use my_oscpu.Sdb.Token.{TokenType, nums, plus, star, negative, Token, Libc}
use my_oscpu.Sdb.Eval.{eval, eval_single, get_operator_priority, apply_binary}
use my_oscpu.Sdb.Eval.Grammar.{Parse, operand, binary, number}
use my_oscpu.Sdb.Eval.Grammar.Value.{eval-Parse}
use my_oscpu.Sdb.Eval.Sign.{eval-negative}
use Prim.Native.String.{String}
use my_oscpu.Riscv.Registers.{same_text}
use my_oscpu.Sdb.Token.{rules}
use my_oscpu.Sdb.Eval.{eval_step}
use my_oscpu.Sdb.Expr.{
  expr, make_token, find_rule, record_token, append_token, final_type, last_type,
}
use my_oscpu.Sdb.Expr.Progress.{NotEmpty}
use my_oscpu.Sdb.Eval.Halts.{expr-Halts}
use my_oscpu.Memory.Halts.{AllReturn}
use my_oscpu.Sdb.Watchpoint.{Pool, add_wp}
use my_oscpu.Sdb.Watchpoint.Lists.{add_wp-IsValid, init_wp_pool-IsValid, count_from}
use my_oscpu.Sdb.Watchpoint.Check.{check_wp, stopped_if, IsChecked, check_wp-IsChecked}
use my_oscpu.Tests.Watchpoint.{zeroed, pool}
use my_oscpu.Tests.Data.{small, machine}

-- The value of the first digit.
abbrev first_digit : List ℕ → ℕ
first_digit [] = 0
first_digit (d ∷ ds) = d - 48

-- One digit, and a plus sign.
abbrev match_one : String → List ℕ → Option (ℕ × ℕ)
match_one pattern_ [] = none
match_one pattern_ (ch ∷ text) =
    if same_text (codes pattern_) (codes "[0-9]+") && (leb 48 ch && leb ch 57)
    then some (0, 1)
    else if same_text (codes pattern_) (codes "\\+") && (ch == b'+')
    then some (0, 1)
    else none

abbrev libc : Libc
libc = record { regexec = match_one; atoi = first_digit; strtol_hex = first_digit }

abbrev digit : ℕ → Token
digit d = record { type = nums; str = (d + 48) ∷ [] }

abbrev sign : TokenType → Token
sign t = record { type = t; str = [] }

digit-Parse : (d k : ℕ) → k ≤ 6 → Parse small libc machine k (digit d ∷ []) d
unfolding eval_single
digit-Parse d k h = operand (digit d) h number (ap (λ x. ok (x, machine)) (back d))
  where
    back : (d : ℕ) → d + 48 - 48 ≡ d
    back d = omega arith

sum-Parse : Parse small libc machine 0 (digit 1 ∷ sign plus ∷ digit 2 ∷ sign star ∷ digit 3 ∷ []) 7
unfolding get_operator_priority apply_binary
sum-Parse =
    binary {l = digit 1 ∷ []} (sign plus) (omega arith) (omega arith)
      (digit-Parse 1 4 (omega arith))
      (binary {l = digit 2 ∷ []} (sign star) (omega arith) (omega arith)
        (digit-Parse 2 5 (omega arith)) (digit-Parse 3 6 (omega arith)) refl)
      refl

eval-Parse_example :
    eval small libc 6 (digit 1 ∷ sign plus ∷ digit 2 ∷ sign star ∷ digit 3 ∷ []) machine
    ≡ ok (7, machine)
eval-Parse_example = eval-Parse small libc machine 6 sum-Parse (omega arith) (omega arith)

-- `-2 + 3` is -2.
eval-negative_example :
    eval small libc 5 (sign negative ∷ digit 2 ∷ sign plus ∷ digit 3 ∷ []) machine
    ≡ ok (2 ^ 32 - 2, machine)
eval-negative_example =
    eval-negative small libc machine 4 (sign negative) (digit 2) (sign plus ∷ digit 3 ∷ []) refl
      refl

abbrev extent : Option (ℕ × ℕ) → ℕ × ℕ
extent none = (0, 1)
extent (some r) = r

match_one-extent : (p : String) (text : List ℕ) → extent (match_one p text) ≡ (0, 1)
match_one-extent p [] = refl
match_one-extent p (ch ∷ text) = ground arith

libc-NotEmpty : NotEmpty libc
libc-NotEmpty p text so eo e =
    let pair : extent (some (so, eo)) ≡ (0, 1) = sym (ap extent e) ∙ match_one-extent p text in
    let start : so ≡ 0 = ap (λ x. x.0) pair in
    let end_ : eo ≡ 1 = ap (λ x. x.1) pair in omega (arith, start, end_)

expr-Halts_example :
    Halts (λ r. AllReturn r.1.memory.bus.maps) (expr small libc (codes "1+2") machine)
expr-Halts_example = expr-Halts small libc (codes "1+2") machine libc-NotEmpty (tt, tt)

expr_sum_stopped :
    (b : Bool)
    → expr small libc (codes "1+2") (stopped_if small libc b machine)
      ≡ ok (some 3, stopped_if small libc b machine)
unfolding expr make_token find_rule rules record_token append_token final_type last_type eval
    eval_step
expr_sum_stopped false = refl
expr_sum_stopped true = refl

-- A watchpoint on `1+2` that has the value 5.
check_wp-IsChecked_example :
    (p p' : Pool) × (b : Bool) × (add_wp (codes "1+2") 5 pool ≡ ok p)
    × (check_wp small libc p machine ≡ ok (p', stopped_if small libc b machine))
    × IsChecked (λ i. 3) (0 ∷ []) p false p' b
check_wp-IsChecked_example =
    let (p, run, valid, at, value, rest) =
      add_wp-IsValid (codes "1+2") 5 0 pool [] (count_from 1 31) (init_wp_pool-IsValid zeroed) in
    let (p', b, checks, r) =
      check_wp-IsChecked small libc p machine (λ i. 3) (0 ∷ []) (count_from 1 31) valid
        ((codes "1+2", at, expr_sum_stopped), tt) in
    (p, p', b, run, checks, r)
