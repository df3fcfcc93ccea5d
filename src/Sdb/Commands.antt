-- ===== src/Sdb/Commands.antt =====
-- The commands of nemu/src/monitor/sdb/sdb.c and its main loop. What is printed is left out, but for the words of
-- `x`; the lines that readline gives are a parameter.
pub mod Valid
use Prim.Native.String.{String}
use my_oscpu.Base.{
  ℕ, zero, suc, ◌+◌, ◌-◌, ◌*◌, ◌^◌, Bool, true, false, ◌&&◌, ◌==◌, ltb, leb, if◌then◌else◌, Option,
  none, some, List, [], ◌∷◌, length, take, drop, codes, add32, is_neg32, Result, ok, err, undefined,
  ◌>>=◌, ◌>>◌, guard,
}
use my_oscpu.Config.{Config}
use my_oscpu.Memory.Paddr.{vaddr_read}
use my_oscpu.Riscv.Machine.{quit}
use my_oscpu.Riscv.Registers.{same_text}
use my_oscpu.Sdb.Expr.{expr}
use my_oscpu.Sdb.Watchpoint.{add_wp, delete_wp}
use my_oscpu.Cpu.Run.{Emulator, Outside, cpu_exec, set_state, with_machine}

-- The C library's functions on a line. `strtok` with the delimiter " " gives the place of the first token and its
-- length; `strtoul` and `strtol` with base 10 give a 32-bit pattern.
pub record LineLibc : Type 0 where
  pub strtok : List ℕ → Option (ℕ × ℕ)
  pub strtoul : List ℕ → ℕ
  pub strtol : List ℕ → ℕ

-- An entry of `cmd_table`.
pub data Command : Type 0 where
  cmd_help cmd_c cmd_q cmd_si cmd_info cmd_x cmd_p cmd_w cmd_d : Command

unfoldable pub cmd_table : List (String × Command)
cmd_table =
    ("help", cmd_help)
    ∷ ("c", cmd_c)
    ∷ ("q", cmd_q)
    ∷ ("si", cmd_si)
    ∷ ("info", cmd_info)
    ∷ ("x", cmd_x)
    ∷ ("p", cmd_p)
    ∷ ("w", cmd_w)
    ∷ ("d", cmd_d)
    ∷ []

-- The loop over the table: `strcmp` of the names.
unfoldable pub find_command : List (String × Command) → List ℕ → Option Command
find_command [] cmd = none
find_command (c ∷ cs) cmd = if same_text cmd (codes c.0) then some c.1 else find_command cs cmd

-- An int passed as a uint64_t.
abbrev pub sign_extend : ℕ → ℕ
sign_extend n = if is_neg32 n then n + (2 ^ 64 - 2 ^ 32) else n

-- The text that stands `len + 1` characters behind the start of the arguments, when `strtok` has found a token of
-- `len` characters at `start` in it and put a terminator behind that.
unfoldable pub remain_of : List ℕ → ℕ → ℕ → Result (List ℕ)
remain_of args start len =
    if start == 0
    then (guard (ltb len (length args)) undefined >> ok (drop (len + 1) args))
    else ok (take (start - 1) (drop (len + 1) args))

module _ {D R : Type 0} (cfg : Config) (o : Outside D R) (l : LineLibc) where
  -- `N = atoi(arg)` of a token that may be NULL.
  unfoldable pub count_of : Option (ℕ × ℕ) → List ℕ → Result ℕ
  count_of none rest = err undefined
  count_of (some (start, len)) rest = ok (o.libc.atoi (take len (drop start rest)))

  -- The test for an invalid N never holds. Without an argument one instruction is run. `rest` is what `strtok`
  -- goes on with.
  unfoldable pub run_si : Option (List ℕ) → List ℕ → Emulator D R → Result (Emulator D R)
  unfolding count_of
  run_si none rest e = cpu_exec cfg o 1 e
  run_si (some args) rest e =
      count_of (l.strtok rest) rest >>= λ n. cpu_exec cfg o (sign_extend n) e

  -- The loop of `x`, for `n` words from word `i` on: the words that are printed. `i * 4` is an int.
  unfoldable pub print_words : ℕ → ℕ → ℕ → Emulator D R → Result (List (ℕ × ℕ) × Emulator D R)
  print_words zero i start_address e = ok ([], e)
  print_words (suc n) i start_address e = do
    guard (ltb i (2 ^ 29)) undefined
    let address = add32 start_address (i * 4)
    (data_, mem) ← vaddr_read cfg address 4 e.machine.memory
    (words, e') ←
        print_words n (i + 1) start_address (with_machine (record e.machine { memory = mem }) e)
    ok ((address, data_) ∷ words, e')

  -- Behind `expr`.
  unfoldable pub print_from : ℕ → Option ℕ → Emulator D R → Result (List (ℕ × ℕ) × Emulator D R)
  unfolding print_words
  print_from n none e = ok ([], e)
  print_from n (some start_address) e = print_words n 0 start_address e

  -- `x`, with the token of its arguments, if there is one.
  unfoldable pub run_x :
      Option (ℕ × ℕ) → List ℕ → Emulator D R → Result (List (ℕ × ℕ) × Emulator D R)
  unfolding print_from
  run_x none args e = ok ([], e)
  run_x (some (start, len)) args e = do
    let n = l.strtoul (take len (drop start args))
    remain ← remain_of args start len
    (v, m) ← expr cfg o.libc remain e.machine
    print_from n v (with_machine m e)

  unfoldable pub run_p : Option (List ℕ) → Emulator D R → Result (Emulator D R)
  run_p none e = ok e
  run_p (some args) e = expr cfg o.libc args e.machine >>= λ r. ok (with_machine r.1 e)

  -- The watchpoint is set if the expression has a value.
  unfoldable pub watch : List ℕ → Option ℕ → Emulator D R → Result (Emulator D R)
  watch args none e = ok e
  watch args (some v) e = add_wp args v e.pool >>= λ p. ok (record e { pool = p })

  unfoldable pub run_w : Option (List ℕ) → Emulator D R → Result (Emulator D R)
  unfolding watch
  run_w none e = ok e
  run_w (some args) e = expr cfg o.libc args e.machine >>= λ r. watch args r.0 (with_machine r.1 e)

  -- A negative number passes the assertion of `delete_wp`, and no watchpoint has it.
  unfoldable pub run_d : Option (ℕ × ℕ) → List ℕ → Emulator D R → Result (Emulator D R)
  run_d none args e = ok e
  run_d (some (start, len)) args e =
      let no_ = l.strtol (take len (drop start args)) in
      if is_neg32 no_ then ok e else (delete_wp no_ e.pool >>= λ p. ok (record e { pool = p }))

  -- `strtok(args, " ")` goes on with the rest of the line if `args` is NULL.
  abbrev pub args_or : Option (List ℕ) → List ℕ → List ℕ
  args_or none rest = rest
  args_or (some args) rest = args

  -- A handler; the flag is that it returns a negative number. `help` and `info` only print.
  unfoldable pub run_command :
      Command → Option (List ℕ) → List ℕ → Emulator D R → Result (Bool × Emulator D R)
  unfolding run_si run_x run_p run_w run_d
  run_command cmd_help args rest e = ok (false, e)
  run_command cmd_info args rest e = ok (false, e)
  run_command cmd_c args rest e = cpu_exec cfg o (2 ^ 64 - 1) e >>= λ e'. ok (false, e')
  run_command cmd_q args rest e = ok (true, set_state quit e)
  run_command cmd_si args rest e = run_si args rest e >>= λ e'. ok (false, e')
  run_command cmd_x args rest e =
      run_x (l.strtok (args_or args rest)) (args_or args rest) e >>= λ r. ok (false, r.1)
  run_command cmd_p args rest e = run_p args e >>= λ e'. ok (false, e')
  run_command cmd_w args rest e = run_w args e >>= λ e'. ok (false, e')
  run_command cmd_d args rest e =
      run_d (l.strtok (args_or args rest)) (args_or args rest) e >>= λ e'. ok (false, e')

  -- The arguments of a line behind a command of `len` characters at `start`, NULL if there are none.
  abbrev pub args_of : List ℕ → ℕ → ℕ → Option (List ℕ)
  args_of str start len =
      if leb (length str) (start + len + 1) then none else some (drop (start + len + 1) str)

  -- A line with its first token. An unknown command only prints.
  unfoldable pub run_line : Option (ℕ × ℕ) → List ℕ → Emulator D R → Result (Bool × Emulator D R)
  unfolding run_command find_command cmd_table
  run_line none str e = ok (false, e)
  run_line (some (start, len)) str e = elim (find_command cmd_table (take len (drop start str))) [
    | none ↦ ok (false, e)
    | some c ↦ run_command c (args_of str start len) (drop (start + len + 1) str) e
  ]

  -- The loop over the lines, up to the end of the input or a command that ends it.
  unfoldable pub read_lines : List (List ℕ) → Emulator D R → Result (Emulator D R)
  unfolding run_line
  read_lines [] e = ok e
  read_lines (str ∷ lines) e = run_line (l.strtok str) str e >>= λ r. elim r.0 [
    | true ↦ ok r.1
    | false ↦ read_lines lines r.1
  ]

  unfoldable pub sdb_mainloop : Bool → List (List ℕ) → Emulator D R → Result (Emulator D R)
  unfolding read_lines
  sdb_mainloop true lines e = cpu_exec cfg o (2 ^ 64 - 1) e
  sdb_mainloop false lines e = read_lines lines e
