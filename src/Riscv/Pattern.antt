-- ===== src/Riscv/Pattern.antt =====
-- The pattern strings of the instruction table: `pattern_decode` of nemu/include/cpu/decode.h, which
-- turns a pattern into a key, a mask and a shift, and the comparison that `INSTPAT` makes.
pub mod Sound
pub mod Conflict
use my_oscpu.Base.{
  ℕ, zero, suc, ◌+◌, ◌*◌, ◌/◌, ◌^◌, Bool, true, false, ◌||◌, ◌&&◌, not, ◌==◌, if◌then◌else◌, List,
  [], ◌∷◌, bit_and, bit_or, u64, Result, ok, err, panic, ◌>>=◌, ◌>>◌, guard,
}

-- `uint64_t key, mask, shift`.
pub record Decoded : Type 0 where
  pub key : ℕ
  pub mask : ℕ
  pub shift : ℕ

-- One round of `macro(i)`, at a character that is no space.
unfoldable pub decode_char : ℕ → Decoded → Decoded
decode_char c d = record {
  key = bit_or (u64 (d.key * 2)) (if c == b'1' then 1 else 0);
  mask = bit_or (u64 (d.mask * 2)) (if c == b'?' then 0 else 1);
  shift = if c == b'?' then d.shift + 1 else 0;
}

abbrev pub is_pattern_char : ℕ → Bool
is_pattern_char c = c == b'0' || c == b'1' || c == b'?'

-- `macro64(0)`: the first argument counts the rounds that are left.
unfoldable pub decode_loop : ℕ → List ℕ → Decoded → Result Decoded
decode_loop zero str d = err (panic "pattern too long")
decode_loop (suc n) [] d = ok d
decode_loop (suc n) (c ∷ str) d = elim (c == b' ') [
  | true ↦ decode_loop n str d
  | false ↦ elim (is_pattern_char c) [
    | true ↦ decode_loop n str (decode_char c d)
    | false ↦ err (panic "invalid character in pattern string")
  ]
]

unfoldable pub finish : Decoded → Decoded
finish d = record { key = d.key / 2 ^ d.shift; mask = d.mask / 2 ^ d.shift; shift = d.shift }

unfoldable pub pattern_decode : List ℕ → Result Decoded
unfolding decode_loop decode_char finish
pattern_decode str = do
  d ← decode_loop 64 str (record { key = 0; mask = 0; shift = 0 })
  ok (finish d)

-- `(((uint64_t)INSTPAT_INST(s) >> shift) & mask) == key`.
unfoldable pub instpat_test : ℕ → Decoded → Bool
instpat_test inst d = bit_and (inst / 2 ^ d.shift) d.mask == d.key
