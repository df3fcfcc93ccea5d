-- ===== src/Sdb/Token.antt =====
-- Tokens of the debugger's expressions: the enum, `struct rule`, `Token` and `Paren_Status` of
-- nemu/src/monitor/sdb/expr.c.
use Prim.Native.String.{String}
use my_oscpu.Base.{ℕ, List, [], ◌∷◌, Option, Bool, true, false}

-- The token types, among them the characters that stand for themselves: '+', '-', '*' and '/' are
-- `plus`, `minus`, `star` and `slash`.
pub data TokenType : Type 0 where
  notype eq nums lb rb negative pointer positive logic_and logic_or logic_not noteq reg hex :
      TokenType
  le ge lt gt plus minus star slash : TokenType

pub record Rule : Type 0 where
  pub regex : String
  pub token_type : TokenType

abbrev rule : String → TokenType → Rule
rule r t = record { regex = r; token_type = t }

unfoldable pub rules : List Rule
rules =
    rule " +" notype
    ∷ rule "\\+" plus
    ∷ rule "\\-" minus
    ∷ rule "\\*" star
    ∷ rule "\\/" slash
    ∷ rule "0x[0-9a-fA-F]+" hex
    ∷ rule "[0-9]+" nums
    ∷ rule "\\(" lb
    ∷ rule "\\)" rb
    ∷ rule "==" eq
    ∷ rule "!=" noteq
    ∷ rule "\\&\\&" logic_and
    ∷ rule "\\|\\|" logic_or
    ∷ rule "!" logic_not
    ∷ rule "<=" le
    ∷ rule ">=" ge
    ∷ rule "<" lt
    ∷ rule ">" gt
    ∷ rule "\\$\\w+" reg
    ∷ []

pub record Token : Type 0 where
  pub type : TokenType
  pub str : List ℕ

-- The C library's functions that expressions use. A text is the list of its characters.
-- `regexec pattern text` is the extent of the leftmost match, if there is one; `atoi` and `strtol` with
-- base 16 give their result as a 32-bit pattern.
pub record Libc : Type 0 where
  pub regexec : String → List ℕ → Option (ℕ × ℕ)
  pub atoi : List ℕ → ℕ
  pub strtol_hex : List ℕ → ℕ

-- `Paren_Status`.
pub data ParenStatus : Type 0 where
  enclosed not_enclosed not_matched : ParenStatus

-- `==` on token types.
abbrev pub is_lb : TokenType → Bool
is_lb lb = true
is_lb _ = false

abbrev pub is_rb : TokenType → Bool
is_rb rb = true
is_rb _ = false

abbrev pub is_slash : TokenType → Bool
is_slash slash = true
is_slash _ = false

abbrev pub is_nums : TokenType → Bool
is_nums nums = true
is_nums _ = false

abbrev pub is_negative : TokenType → Bool
is_negative negative = true
is_negative _ = false

abbrev pub is_positive : TokenType → Bool
is_positive positive = true
is_positive _ = false
