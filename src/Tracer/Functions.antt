-- ===== src/Tracer/Functions.antt =====
-- The function tracer of nemu/src/utils/tracer.c: calls and returns are printed at their depth. The
-- symbols are those that `parse_elf` has read; `depth` is a C int, kept as its 32-bit pattern.
use Prim.Native.String.{String}
use my_oscpu.Base.{
  ℕ, ◌+◌, ◌&&◌, leb, ltb, if◌then◌else◌, Option, none, some, List, [], ◌∷◌, ◌++◌, u64, add32, sub32,
}

pub record Symbol : Type 0 where
  pub name : String
  pub addr : ℕ
  pub size : ℕ

pub data Kind : Type 0 where
  call ret : Kind

-- One line of `print_trace`.
pub record Line : Type 0 where
  pub at : ℕ
  pub indent : ℕ
  pub kind : Kind
  pub function : Symbol

pub record FuncTrace : Type 0 where
  pub symbols : List Symbol
  pub depth : ℕ
  pub printed : List Line

-- The symbol that `find_func` has the index of, and `none` for -1.
unfoldable pub find_func : List Symbol → ℕ → Option Symbol
find_func [] addr = none
find_func (s ∷ ss) addr =
    if leb s.addr addr && ltb addr (u64 (s.addr + s.size)) then some s else find_func ss addr

abbrev print_trace : ℕ → Symbol → Kind → FuncTrace → FuncTrace
print_trace addr_curr func kind t = record t {
  printed =
      t.printed ++ record { at = addr_curr; indent = t.depth; kind = kind; function = func } ∷ [];
}

unfoldable pub func_call_trace : ℕ → ℕ → FuncTrace → FuncTrace
unfolding find_func
func_call_trace addr_curr addr_func t = elim (find_func t.symbols addr_func) [
  | none ↦ t
  | some f ↦ let t' = print_trace addr_curr f call t in record t' { depth = add32 t'.depth 1 }
]

unfoldable pub func_ret_trace : ℕ → FuncTrace → FuncTrace
unfolding find_func
func_ret_trace addr_curr t = elim (find_func t.symbols addr_curr) [
  | none ↦ t
  | some f ↦ print_trace addr_curr f ret (record t { depth = sub32 t.depth 1 })
]
