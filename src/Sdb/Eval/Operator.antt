-- ===== src/Sdb/Eval/Operator.antt =====
-- The operator that `find_main_operator` of nemu/src/monitor/sdb/expr.c keeps stands in the segment.
use my_oscpu.Base.{
  ℕ, ◌+◌, ◌≤◌, ◌<◌, arith, Bool-cases, ◌==◌, ◌&&◌, leb, if◌then◌else◌, List, [], ◌∷◌, length,
  Option, none, some, inl, inr,
}
use my_oscpu.Sdb.Token.{
  TokenType, notype, eq, nums, lb, rb, negative, pointer, positive, logic_and, logic_or, logic_not,
  noteq, reg, hex, le, ge, lt, gt, plus, minus, star, slash,
}
use my_oscpu.Sdb.Eval.{
  Scan, scan_operator, scan_token, scan_loop, scan_start, get_operator_priority, find_main_operator,
}

-- The place of an operator is below `n`.
abbrev pub Below : ℕ → Option ℕ → Type 0
Below n none = Unit {0}
Below n (some k) = k < n

-- The place that is kept, or the new one.
pick-Below :
    (n i : ℕ) (t : TokenType) (s : Scan)
    → i < n
    → Below n s.op
    → let priority = get_operator_priority t in
      Below n
        (if (s.parentheses_layer == 0) && leb priority s.min_priority
          then record s { op = some i; min_priority = priority }
          else s).op
pick-Below n i t s l h =
    elim (Bool-cases ((s.parentheses_layer == 0) && leb (get_operator_priority t) s.min_priority)) [
      | inl best ↦ rw best l
      | inr other ↦ rw other h
    ]

scan_operator-Below :
    (n i : ℕ) (t : TokenType) (s : Scan) → i < n → Below n s.op → Below n (scan_operator i t s).op
unfolding scan_operator
scan_operator-Below n i negative s l h = h
scan_operator-Below n i notype s l h = pick-Below n i notype s l h
scan_operator-Below n i eq s l h = pick-Below n i eq s l h
scan_operator-Below n i nums s l h = pick-Below n i nums s l h
scan_operator-Below n i lb s l h = pick-Below n i lb s l h
scan_operator-Below n i rb s l h = pick-Below n i rb s l h
scan_operator-Below n i pointer s l h = pick-Below n i pointer s l h
scan_operator-Below n i positive s l h = pick-Below n i positive s l h
scan_operator-Below n i logic_and s l h = pick-Below n i logic_and s l h
scan_operator-Below n i logic_or s l h = pick-Below n i logic_or s l h
scan_operator-Below n i logic_not s l h = pick-Below n i logic_not s l h
scan_operator-Below n i noteq s l h = pick-Below n i noteq s l h
scan_operator-Below n i reg s l h = pick-Below n i reg s l h
scan_operator-Below n i hex s l h = pick-Below n i hex s l h
scan_operator-Below n i le s l h = pick-Below n i le s l h
scan_operator-Below n i ge s l h = pick-Below n i ge s l h
scan_operator-Below n i lt s l h = pick-Below n i lt s l h
scan_operator-Below n i gt s l h = pick-Below n i gt s l h
scan_operator-Below n i plus s l h = pick-Below n i plus s l h
scan_operator-Below n i minus s l h = pick-Below n i minus s l h
scan_operator-Below n i star s l h = pick-Below n i star s l h
scan_operator-Below n i slash s l h = pick-Below n i slash s l h

scan_token-Below :
    (n i : ℕ) (t : TokenType) (s : Scan) → i < n → Below n s.op → Below n (scan_token i t s).op
unfolding scan_token
scan_token-Below n i lb s l h = h
scan_token-Below n i rb s l h = h
scan_token-Below n i notype s l h = scan_operator-Below n i notype s l h
scan_token-Below n i eq s l h = scan_operator-Below n i eq s l h
scan_token-Below n i nums s l h = scan_operator-Below n i nums s l h
scan_token-Below n i pointer s l h = scan_operator-Below n i pointer s l h
scan_token-Below n i positive s l h = scan_operator-Below n i positive s l h
scan_token-Below n i logic_and s l h = scan_operator-Below n i logic_and s l h
scan_token-Below n i logic_or s l h = scan_operator-Below n i logic_or s l h
scan_token-Below n i logic_not s l h = scan_operator-Below n i logic_not s l h
scan_token-Below n i noteq s l h = scan_operator-Below n i noteq s l h
scan_token-Below n i reg s l h = scan_operator-Below n i reg s l h
scan_token-Below n i hex s l h = scan_operator-Below n i hex s l h
scan_token-Below n i le s l h = scan_operator-Below n i le s l h
scan_token-Below n i ge s l h = scan_operator-Below n i ge s l h
scan_token-Below n i lt s l h = scan_operator-Below n i lt s l h
scan_token-Below n i gt s l h = scan_operator-Below n i gt s l h
scan_token-Below n i plus s l h = scan_operator-Below n i plus s l h
scan_token-Below n i minus s l h = scan_operator-Below n i minus s l h
scan_token-Below n i star s l h = scan_operator-Below n i star s l h
scan_token-Below n i slash s l h = scan_operator-Below n i slash s l h
scan_token-Below n i negative s l h = scan_operator-Below n i negative s l h

scan_loop-Below :
    (n i : ℕ) (ts : List TokenType) (s : Scan)
    → i + length ts ≤ n
    → Below n s.op
    → Below n (scan_loop i ts s).op
unfolding scan_loop
scan_loop-Below n i [] s l h = h
scan_loop-Below n i (t ∷ ts) s l h =
    scan_loop-Below n (i + 1) ts (scan_token i t s) (omega (arith, l))
      (scan_token-Below n i t s (omega (arith, l)) h)

pub find_main_operator-Below : (ts : List TokenType) → Below (length ts) (find_main_operator ts)
unfolding find_main_operator
find_main_operator-Below ts = scan_loop-Below (length ts) 0 ts scan_start (omega arith) tt
