-- ===== src/Sdb/Eval.antt =====
-- Evaluation of an expression: `check_parentheses`, `get_operator_priority`, `find_main_operator` and
-- `eval` of nemu/src/monitor/sdb/expr.c. These read tokens[p..q] only, so the model passes that segment
-- as a list; p > q is the empty list, and an index is relative to p. The stack of `eval` is left after
-- its first frame on every path.
pub mod Grammar
pub mod Keeps
pub mod Operator
pub mod Halts
pub mod Sign
use my_oscpu.Base.{
  ℕ, zero, suc, ◌+◌, ◌-◌, ◌^◌, Bool, true, false, ◌&&◌, not, ◌==◌, ltb, leb, if◌then◌else◌, List,
  [], ◌∷◌, Option, none, some, get_elem?, take, drop, add32, sub32, mul32, neg32, Result, ok, err,
  panic, undefined, out_of_fuel, ◌>>=◌,
}
use my_oscpu.Config.{Config}
use my_oscpu.Memory.Paddr.{vaddr_read}
use my_oscpu.Riscv.Alu.{sdiv32, word_of}
use my_oscpu.Riscv.Machine.{Machine}
use my_oscpu.Riscv.Exec.{load_word}
use my_oscpu.Riscv.Registers.{isa_reg_str2val}
use my_oscpu.Sdb.Token.{
  TokenType, notype, eq, nums, lb, rb, negative, pointer, positive, logic_and, logic_or, logic_not,
  noteq, reg, hex, le, ge, lt, gt, plus, minus, star, slash, Token, Libc, ParenStatus, enclosed,
  not_enclosed, not_matched, is_nums,
}

abbrev pub int_max : ℕ
int_max = 2 ^ 31 - 1

-- The loop of `check_parentheses`. The list is what is left of the segment, so `i != q` is that
-- something stands behind; `layer` is positive before a bracket that closes, unless one is unmatched.
unfoldable pub paren_loop : ℕ → List TokenType → ParenStatus
paren_loop zero [] = enclosed
paren_loop (suc layer) [] = not_matched
paren_loop layer (lb ∷ ts) = paren_loop (suc layer) ts
paren_loop zero (rb ∷ ts) = not_matched
paren_loop (suc zero) (rb ∷ []) = enclosed
paren_loop (suc zero) (rb ∷ t ∷ ts) = not_enclosed
paren_loop (suc (suc layer)) (rb ∷ ts) = paren_loop (suc layer) ts
paren_loop layer (_ ∷ ts) = paren_loop layer ts

unfoldable pub last_is_rb : List TokenType → Bool
last_is_rb [] = false
last_is_rb (rb ∷ []) = true
last_is_rb (_ ∷ []) = false
last_is_rb (_ ∷ t ∷ ts) = last_is_rb (t ∷ ts)

-- `check_parentheses`, of a segment that is not empty.
unfoldable pub check_parentheses : List TokenType → ParenStatus
unfolding paren_loop last_is_rb
check_parentheses (lb ∷ ts) = if last_is_rb (lb ∷ ts) then paren_loop 0 (lb ∷ ts) else not_enclosed
check_parentheses _ = not_enclosed

unfoldable pub get_operator_priority : TokenType → ℕ
get_operator_priority logic_or = 0
get_operator_priority logic_and = 1
get_operator_priority eq = 2
get_operator_priority noteq = 2
get_operator_priority lt = 3
get_operator_priority le = 3
get_operator_priority gt = 3
get_operator_priority ge = 3
get_operator_priority plus = 4
get_operator_priority minus = 4
get_operator_priority star = 5
get_operator_priority slash = 5
get_operator_priority negative = 6
get_operator_priority pointer = 6
get_operator_priority _ = int_max

-- `op` (`none` is -1), `min_priority` and `parentheses_layer`, an int as its 32-bit pattern.
pub record Scan : Type 0 where
  pub op : Option ℕ
  pub min_priority : ℕ
  pub parentheses_layer : ℕ

-- A token at index `i` that is no bracket.
unfoldable pub scan_operator : ℕ → TokenType → Scan → Scan
scan_operator i negative s = s
scan_operator i t s =
    let priority = get_operator_priority t in
    if (s.parentheses_layer == 0) && leb priority s.min_priority
    then record s { op = some i; min_priority = priority }
    else s

unfoldable pub scan_token : ℕ → TokenType → Scan → Scan
unfolding scan_operator
scan_token i lb s = record s { parentheses_layer = add32 s.parentheses_layer 1 }
scan_token i rb s = record s { parentheses_layer = sub32 s.parentheses_layer 1 }
scan_token i t s = scan_operator i t s

unfoldable pub scan_loop : ℕ → List TokenType → Scan → Scan
scan_loop i [] s = s
scan_loop i (t ∷ ts) s = scan_loop (i + 1) ts (scan_token i t s)

abbrev pub scan_start : Scan
scan_start = record { op = none; min_priority = int_max; parentheses_layer = 0 }

unfoldable pub find_main_operator : List TokenType → Option ℕ
unfolding scan_loop scan_token get_operator_priority
find_main_operator ts = (scan_loop 0 ts scan_start).op

-- The `switch` on a binary operator.
unfoldable pub apply_binary : TokenType → ℕ → ℕ → Result ℕ
apply_binary plus a b = ok (add32 a b)
apply_binary minus a b = ok (sub32 a b)
apply_binary star a b = ok (mul32 a b)
apply_binary slash a b = if b == 0 then err (panic "Division by zero detected") else sdiv32 a b
apply_binary eq a b = ok (word_of (a == b))
apply_binary noteq a b = ok (word_of (not (a == b)))
apply_binary lt a b = ok (word_of (ltb a b))
apply_binary le a b = ok (word_of (leb a b))
apply_binary gt a b = ok (word_of (ltb b a))
apply_binary ge a b = ok (word_of (leb b a))
apply_binary logic_and a b = ok (word_of (not (a == 0) && not (b == 0)))
apply_binary logic_or a b = ok (word_of (not ((a == 0) && (b == 0))))
apply_binary t a b = err (panic "Unknown operator type")

-- The tokens' types.
abbrev pub types_of : List Token → List TokenType
types_of [] = []
types_of (t ∷ ts) = t.type ∷ types_of ts

-- All but the last.
abbrev pub init_of : List Token → List Token
init_of [] = []
init_of (t ∷ []) = []
init_of (t ∷ u ∷ ts) = t ∷ init_of (u ∷ ts)

-- The early return for a signed number in front of a segment of at least two tokens.
unfoldable pub signed_number : Libc → TokenType → Token → Option ℕ
signed_number c negative u = if is_nums u.type then some (neg32 (c.atoi u.str)) else none
signed_number c positive u = if is_nums u.type then some (c.atoi u.str) else none
signed_number c _ u = none

module _ {D : Type 0} (cfg : Config) (c : Libc) where
  -- A segment of one token. A type that is none of the three leaves the loop, and 0 is returned.
  unfoldable pub eval_single : TokenType → List ℕ → Machine D → Result (ℕ × Machine D)
  eval_single nums str m = ok (c.atoi str, m)
  eval_single hex str m = ok (c.strtol_hex str, m)
  eval_single reg str m = elim (isa_reg_str2val cfg m.cpu str) [
    | some v ↦ ok (v, m)
    | none ↦ err (panic "Invalid register")
  ]
  eval_single _ str m = ok (0, m)

  -- The `switch` on a unary operator.
  unfoldable pub apply_unary : TokenType → ℕ → Machine D → Result (ℕ × Machine D)
  apply_unary negative v m = ok (neg32 v, m)
  apply_unary positive v m = ok (v, m)
  apply_unary pointer v m = load_word cfg v 4 m
  apply_unary t v m = err (panic "Unknown unary operator type")

  -- Both operands, then the operator at `op`. At -1 the left operand is an empty segment.
  unfoldable pub eval_binary :
      (List Token → Machine D → Result (ℕ × Machine D))
      → List Token
      → Option ℕ
      → Machine D
      → Result (ℕ × Machine D)
  unfolding apply_binary
  eval_binary rec seg none m = rec [] m >>= λ _. err undefined
  eval_binary rec seg (some i) m = do
    (v1, m1) ← rec (take i seg) m
    (v2, m2) ← rec (drop (i + 1) seg) m1
    elim (get_elem? seg i) [
      | none ↦ err undefined
      | some t ↦ apply_binary t.type v1 v2 >>= λ v. ok (v, m2)
    ]

  -- Behind the test of the main operator's place.
  unfoldable pub eval_signed :
      (List Token → Machine D → Result (ℕ × Machine D))
      → Option ℕ
      → List Token
      → Option ℕ
      → Machine D
      → Result (ℕ × Machine D)
  unfolding eval_binary
  eval_signed rec (some v) seg op m = ok (v, m)
  eval_signed rec none seg op m = eval_binary rec seg op m

  -- A segment of at least two tokens, by its brackets and its main operator.
  unfoldable pub eval_compound :
      (List Token → Machine D → Result (ℕ × Machine D))
      → Token
      → Token
      → List Token
      → ParenStatus
      → Option ℕ
      → Machine D
      → Result (ℕ × Machine D)
  unfolding eval_signed apply_unary signed_number
  eval_compound rec t u ts enclosed op m = rec (init_of (u ∷ ts)) m
  eval_compound rec t u ts not_matched op m = err (panic "Parentheses not matched")
  eval_compound rec t u ts not_enclosed (some zero) m = do
    (v, m') ← rec (u ∷ ts) m
    apply_unary t.type v m'
  eval_compound rec t u ts not_enclosed op m =
      eval_signed rec (signed_number c t.type u) (t ∷ u ∷ ts) op m

  unfoldable pub eval_step :
      (List Token → Machine D → Result (ℕ × Machine D))
      → List Token
      → Machine D
      → Result (ℕ × Machine D)
  unfolding eval_compound eval_single check_parentheses find_main_operator
  eval_step rec [] m = err (panic "Bad expression")
  eval_step rec (t ∷ []) m = eval_single t.type t.str m
  eval_step rec (t ∷ u ∷ ts) m =
      let types = types_of (t ∷ u ∷ ts) in
      eval_compound rec t u ts (check_parentheses types) (find_main_operator types) m

  -- `eval`, with fuel for its recursion.
  unfoldable pub eval : ℕ → List Token → Machine D → Result (ℕ × Machine D)
  unfolding eval_step
  eval zero seg m = err out_of_fuel
  eval (suc fuel) seg m = eval_step (eval fuel) seg m
