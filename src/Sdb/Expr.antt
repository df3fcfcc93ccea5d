-- ===== src/Sdb/Expr.antt =====
-- `make_token` and `expr` of nemu/src/monitor/sdb/expr.c. A text is the list of its characters before the NUL, and a
-- position what is left of it. `tokens` has 64 places; a token behind them is written outside the array.
pub mod Progress
use my_oscpu.Base.{
  ℕ, zero, suc, ◌+◌, ◌-◌, ◌%◌, Bool, true, false, ◌&&◌, not, ◌==◌, ltb, leb, if◌then◌else◌, List,
  [], ◌∷◌, ◌++◌, Option, none, some, take, drop, length, Result, ok, err, panic, undefined,
  out_of_fuel, ◌>>=◌, ◌>>◌, guard,
}
use my_oscpu.Config.{Config}
use my_oscpu.Riscv.Machine.{Machine}
use my_oscpu.Sdb.Token.{
  TokenType, notype, lb, negative, positive, pointer, plus, minus, star, slash, nums, Rule, rules,
  Token, Libc, is_nums, is_slash,
}
use my_oscpu.Sdb.Eval.{eval}

abbrev pub max_tokens : ℕ
max_tokens = 64

-- The first rule that matches at the start of the text, and the length of the match.
unfoldable pub find_rule : Libc → List Rule → List ℕ → Option (Rule × ℕ)
find_rule c [] text = none
find_rule c (r ∷ rs) text =
    let rest = find_rule c rs text in
    elim (c.regexec r.regex text) [
      | none ↦ rest
      | some (so, eo) ↦ if so == 0 then some (r, eo) else rest
    ]

-- The type of the token before, if there is one.
unfoldable pub last_type : List Token → Option TokenType
last_type [] = none
last_type (t ∷ []) = some t.type
last_type (t ∷ u ∷ ts) = last_type (u ∷ ts)

-- Behind this token, `-` is a sign and `*` a pointer.
unfoldable pub expects_operand : Option TokenType → Bool
expects_operand none = true
expects_operand (some lb) = true
expects_operand (some negative) = true
expects_operand (some minus) = true
expects_operand (some plus) = true
expects_operand (some star) = true
expects_operand (some slash) = true
expects_operand (some _) = false

abbrev pub is_division : Option TokenType → Bool
is_division none = false
is_division (some t) = is_slash t

-- The `-` characters that follow: their number, and the text behind them.
unfoldable pub count_signs : List ℕ → ℕ × List ℕ
count_signs [] = (0, [])
count_signs (ch ∷ text) =
    let (n, rest) = count_signs text in if ch == b'-' then (n + 1, rest) else (0, ch ∷ text)

-- `neg_count` counts the first sign too.
abbrev pub sign_type : ℕ → TokenType
sign_type n = if (n + 1) % 2 == 0 then positive else negative

-- The type that is recorded for a token, and the text behind it.
unfoldable pub final_type : TokenType → Bool → List ℕ → TokenType × List ℕ
final_type minus true text = let (n, rest) = count_signs text in (sign_type n, rest)
final_type star true text = (pointer, text)
final_type t _ text = (t, text)

unfoldable pub append_token :
    Libc → TokenType → List ℕ → List Token → List ℕ → Result (List Token × List ℕ)
append_token c t str toks text =
    guard (ltb (length toks) max_tokens) undefined
    >> guard (not (is_division (last_type toks) && is_nums t && (c.atoi str == 0)))
        (panic "Attempted division by zero")
    >> (let (t', rest) = final_type t (expects_operand (last_type toks)) text in
        ok (toks ++ record { type = t'; str = str } ∷ [], rest))

-- Spaces are not recorded.
unfoldable pub record_token :
    Libc → TokenType → List ℕ → List Token → List ℕ → Result (List Token × List ℕ)
record_token c notype str toks text = ok (toks, text)
record_token c t str toks text = append_token c t str toks text

-- The loop over the text: the tokens, or none where no rule matches. A text is cut to 31 characters.
unfoldable pub make_token : ℕ → Libc → List Token → List ℕ → Result (Option (List Token))
make_token zero c toks text = err out_of_fuel
make_token (suc fuel) c toks [] = ok (some toks)
make_token (suc fuel) c toks (ch ∷ text) = elim (find_rule c rules (ch ∷ text)) [
  | none ↦ ok none
  | some (r, len) ↦
      record_token c r.token_type (take (if leb 32 len then 31 else len) (ch ∷ text)) toks
        (drop len (ch ∷ text))
      >>= λ next. make_token fuel c next.0 next.1
]

module _ {D : Type 0} (cfg : Config) (c : Libc) where
  -- `expr`: none where `success` is false.
  unfoldable pub expr : List ℕ → Machine D → Result (Option ℕ × Machine D)
  unfolding make_token
  expr e m = make_token (length e + 1) c [] e >>= λ made. elim made [
    | none ↦ ok (none, m)
    | some toks ↦ eval cfg c (length toks + 1) toks m >>= λ r. ok (some r.0, r.1)
  ]
