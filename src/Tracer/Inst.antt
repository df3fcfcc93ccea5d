-- ===== src/Tracer/Inst.antt =====
-- `inst_trace` of nemu/src/utils/tracer.c and `disassemble` of nemu/src/utils/disasm.cc: the text of an
-- instruction in the ring buffer. What LLVM prints is a parameter.
use my_oscpu.Base.{
  ℕ, zero, suc, ◌+◌, ◌-◌, ◌*◌, ◌/◌, ◌%◌, ◌^◌, ◌==◌, ltb, if◌then◌else◌, List, [], ◌∷◌, ◌++◌, length,
  replicate, codes, sub32, Result, ok, err, panic, undefined, ◌>>=◌, ◌>>◌, guard,
}
use my_oscpu.Config.{Config}
use my_oscpu.Riscv.Exec.{Decode}
use my_oscpu.Tracer.Ring.{RingBuffer, write_ring_buffer}

abbrev pub hex_digit : ℕ → ℕ
hex_digit d = if ltb d 10 then b'0' + d else b'a' + (d - 10)

-- The last `n` hexadecimal digits, which is what `%0<n>x` prints of a number that has no more.
unfoldable pub hex_text : ℕ → ℕ → List ℕ
hex_text zero v = []
hex_text (suc n) v = hex_text n (v / 16) ++ hex_digit (v % 16) ∷ []

-- The bytes of the instruction, the last one first.
unfoldable pub byte_texts : ℕ → ℕ → List ℕ
byte_texts zero inst = []
byte_texts (suc i) inst = b' ' ∷ hex_text 2 (inst / 256 ^ i % 256) ++ byte_texts i inst

-- A text without its leading tabs. If there is nothing else, the pointer goes in front of it.
unfoldable pub skip_tabs : List ℕ → Result (List ℕ)
skip_tabs [] = err undefined
skip_tabs (ch ∷ text) = let rest = skip_tabs text in if ch == b'\t' then rest else ok (ch ∷ text)

unfoldable pub disassemble : (ℕ → ℕ → List ℕ) → ℕ → ℕ → ℕ → Result (List ℕ)
unfolding skip_tabs
disassemble print_inst size pc inst = do
  text ← skip_tabs (print_inst pc inst)
  guard (ltb (length text) size) (panic "assert((int)s.length() - skip < size)")
  ok text

abbrev pub space_len : ℕ → ℕ
space_len ilen = (4 + 1 - ilen) * 3

-- The text in front of the disassembly: FMT_WORD, ":", the bytes and the space.
unfoldable pub inst_head : Decode → List ℕ
unfolding hex_text byte_texts
inst_head s =
    let ilen = sub32 s.snpc s.pc in
    codes "0x"
    ++ hex_text 8 s.pc
    ++ b':' ∷ byte_texts ilen s.inst
    ++ replicate (space_len ilen) b' '

unfoldable pub inst_trace : Config → (ℕ → ℕ → List ℕ) → Decode → RingBuffer → Result RingBuffer
unfolding inst_head disassemble
inst_trace cfg print_inst s r =
    if cfg.itrace
    then (disassemble print_inst (128 - length (inst_head s)) s.pc s.inst >>= λ text.
        ok (write_ring_buffer (inst_head s ++ text) r))
    else ok r
