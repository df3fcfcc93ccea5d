-- ===== src/Klib/Stdio/Padding.antt =====
-- The zeros in front of a number in `vsnprintf` (abstract-machine/klib/src/stdio.c).
use my_oscpu.Base.{ℕ, ◌+◌, ◌-◌, ◌^◌, ◌<◌, true, false, List, [], ◌∷◌, ◌++◌}
use my_oscpu.Klib.Stdio.{Flags}

-- What `read_padding` leaves of `%0<w>d`.
abbrev zeros_flags : ℕ → Flags
zeros_flags w = record {
  precision_flag = false;
  precision = 2 ^ 32 - 1;
  padding_flag = true;
  padding = w;
}

-- Digits, as the characters of a numeral.
abbrev pub AreDigits : List ℕ → Type 0
AreDigits [] = Unit {0}
AreDigits (d ∷ ds) = (d < 10) × AreDigits ds

abbrev pub numeral : List ℕ → List ℕ
numeral [] = []
numeral (d ∷ ds) = (d + b'0') ∷ numeral ds

-- `%0<w>d`, with the digits of `w`.
abbrev pub zeros_format : List ℕ → List ℕ
zeros_format ds = b'%' ∷ b'0' ∷ numeral ds ++ b'd' ∷ []
