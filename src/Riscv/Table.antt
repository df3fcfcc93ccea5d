-- ===== src/Riscv/Table.antt =====
-- The instruction table of `decode_exec` (nemu/src/isa/riscv32/inst.c): pattern, instruction and operand
-- type of each `INSTPAT` row, in the order of the source.
pub mod Exclusive
use Prim.Native.String.{String}
use my_oscpu.Base.{
  ℕ, Bool, true, false, Option, none, some, List, [], ◌∷◌, codes, Result, ok, err, panic, ◌>>=◌,
  if◌then◌else◌,
}
use my_oscpu.Riscv.Pattern.{pattern_decode, instpat_test}

-- `enum { TYPE_I, … }`.
pub data OperandType : Type 0 where
  type_i type_u type_s type_j type_r type_b type_n : OperandType

-- One constructor for each row. (The source names the row of `ori` `xori` too; its body is an or.)
pub data Instr : Type 0 where
  lui auipc jal jalr : Instr
  beq bne blt bge bltu bgeu : Instr
  lb lh lw lbu lhu sb sh sw : Instr
  addi slti sltiu xori ori andi slli srli srai : Instr
  add sub sll slt sltu xor srl sra or and : Instr
  mul mulh mulhu div divu rem remu : Instr
  csrrw csrrs ecall ebreak mret inv : Instr

pub record Row : Type 0 where
  pub pattern_ : String
  pub instr : Instr
  pub type : OperandType

abbrev row : String → Instr → OperandType → Row
row p i t = record { pattern_ = p; instr = i; type = t }

unfoldable pub rows : List Row
rows =
    row "??????? ????? ????? ??? ????? 01101 11" lui type_u
    ∷ row "??????? ????? ????? ??? ????? 00101 11" auipc type_u
    ∷ row "??????? ????? ????? ??? ????? 11011 11" jal type_j
    ∷ row "??????? ????? ????? 000 ????? 11001 11" jalr type_i
    ∷ row "??????? ????? ????? 000 ????? 11000 11" beq type_b
    ∷ row "??????? ????? ????? 001 ????? 11000 11" bne type_b
    ∷ row "??????? ????? ????? 100 ????? 11000 11" blt type_b
    ∷ row "??????? ????? ????? 101 ????? 11000 11" bge type_b
    ∷ row "??????? ????? ????? 110 ????? 11000 11" bltu type_b
    ∷ row "??????? ????? ????? 111 ????? 11000 11" bgeu type_b
    ∷ row "??????? ????? ????? 000 ????? 00000 11" lb type_i
    ∷ row "??????? ????? ????? 001 ????? 00000 11" lh type_i
    ∷ row "??????? ????? ????? 010 ????? 00000 11" lw type_i
    ∷ row "??????? ????? ????? 100 ????? 00000 11" lbu type_i
    ∷ row "??????? ????? ????? 101 ????? 00000 11" lhu type_i
    ∷ row "??????? ????? ????? 000 ????? 01000 11" sb type_s
    ∷ row "??????? ????? ????? 001 ????? 01000 11" sh type_s
    ∷ row "??????? ????? ????? 010 ????? 01000 11" sw type_s
    ∷ row "??????? ????? ????? 000 ????? 00100 11" addi type_i
    ∷ row "??????? ????? ????? 010 ????? 00100 11" slti type_i
    ∷ row "??????? ????? ????? 011 ????? 00100 11" sltiu type_i
    ∷ row "??????? ????? ????? 100 ????? 00100 11" xori type_i
    ∷ row "??????? ????? ????? 110 ????? 00100 11" ori type_i
    ∷ row "??????? ????? ????? 111 ????? 00100 11" andi type_i
    ∷ row "0000000 ????? ????? 001 ????? 00100 11" slli type_i
    ∷ row "0000000 ????? ????? 101 ????? 00100 11" srli type_i
    ∷ row "0100000 ????? ????? 101 ????? 00100 11" srai type_i
    ∷ row "0000000 ????? ????? 000 ????? 01100 11" add type_r
    ∷ row "0100000 ????? ????? 000 ????? 01100 11" sub type_r
    ∷ row "0000000 ????? ????? 001 ????? 01100 11" sll type_r
    ∷ row "0000000 ????? ????? 010 ????? 01100 11" slt type_r
    ∷ row "0000000 ????? ????? 011 ????? 01100 11" sltu type_r
    ∷ row "0000000 ????? ????? 100 ????? 01100 11" xor type_r
    ∷ row "0000000 ????? ????? 101 ????? 01100 11" srl type_r
    ∷ row "0100000 ????? ????? 101 ????? 01100 11" sra type_r
    ∷ row "0000000 ????? ????? 110 ????? 01100 11" or type_r
    ∷ row "0000000 ????? ????? 111 ????? 01100 11" and type_r
    ∷ row "0000001 ????? ????? 000 ????? 01100 11" mul type_r
    ∷ row "0000001 ????? ????? 001 ????? 01100 11" mulh type_r
    ∷ row "0000001 ????? ????? 011 ????? 01100 11" mulhu type_r
    ∷ row "0000001 ????? ????? 100 ????? 01100 11" div type_r
    ∷ row "0000001 ????? ????? 101 ????? 01100 11" divu type_r
    ∷ row "0000001 ????? ????? 110 ????? 01100 11" rem type_r
    ∷ row "0000001 ????? ????? 111 ????? 01100 11" remu type_r
    ∷ row "??????? ????? ????? 001 ????? 11100 11" csrrw type_i
    ∷ row "??????? ????? ????? 010 ????? 11100 11" csrrs type_i
    ∷ row "0000000 00000 00000 000 00000 11100 11" ecall type_n
    ∷ row "0000000 00001 00000 000 00000 11100 11" ebreak type_n
    ∷ row "0011000 00010 00000 000 00000 11100 11" mret type_r
    ∷ row "??????? ????? ????? ??? ????? ????? ??" inv type_n
    ∷ []

-- The first row whose pattern the word matches.
unfoldable pub find_row : List Row → ℕ → Result (Option Row)
find_row [] inst = ok none
find_row (r ∷ rs) inst =
    let rest = find_row rs inst in
    do d ← pattern_decode (codes r.pattern_); if instpat_test inst d then ok (some r) else rest
