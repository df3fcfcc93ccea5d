-- ===== src/Sdb/Commands/Valid.antt =====
-- No command of nemu/src/monitor/sdb/sdb.c breaks the emulator's state.
use my_oscpu.Base.{
  ℕ, zero, suc, ◌+◌, ◌-◌, ◌*◌, ◌^◌, ◌<◌, ◌≡◌, subst, Bool, true, false, Bool-cases, inl, inr, ltb,
  Option, none, some, Option-cases, List, [], ◌∷◌, take, drop, add32, is_neg32, Result, ok,
  undefined, ◌>>=◌,
}
use my_oscpu.Config.{Config}
use my_oscpu.Memory.Paddr.{Memory, vaddr_read}
use my_oscpu.Memory.Valid
use my_oscpu.Memory.Valid.{
  Ensures, Ensures-bind, Ensures-map, Ensures-any, Ensures-guard, Ensures-if, paddr_read-valid,
}
use my_oscpu.Riscv.Machine.{Machine, quit}
use my_oscpu.Riscv.Exec.Valid.{with_memory-IsValid}
use my_oscpu.Sdb.Expr.{expr}
use my_oscpu.Sdb.Eval.Keeps.{Keeps, expr-Keeps}
use my_oscpu.Sdb.Watchpoint.{Pool, add_wp, delete_wp}
use my_oscpu.Cpu.Run.{Emulator, Outside, cpu_exec, with_machine}
use my_oscpu.Cpu.Run.Valid.{
  IsValid, with_machine-IsValid, self-Keeps, cpu_exec-Ensures, with_io-IsValid,
}
use my_oscpu.Sdb.Commands.{
  LineLibc, Command, cmd_help, cmd_c, cmd_q, cmd_si, cmd_info, cmd_x, cmd_p, cmd_w, cmd_d,
  cmd_table, find_command, sign_extend, remain_of, count_of, run_si, print_words, print_from, run_x,
  run_p, watch, run_w, run_d, run_command, run_line, read_lines, sdb_mainloop, args_of, args_or,
}

module _ {D R : Type 0} (cfg : Config) (o : Outside D R) (l : LineLibc) where
  IsWell : Emulator D R → Type 0
  IsWell e = IsValid e

  with_pool-IsValid : (e : Emulator D R) (p : Pool) → IsValid e → IsValid (record e { pool = p })
  with_pool-IsValid e p v = record {
    machine = v.machine;
    x0 = v.x0;
    ring = v.ring;
    count = v.count;
  }

  cpu_exec-IsWell : (n : ℕ) (e : Emulator D R) → IsValid e → Ensures IsWell (cpu_exec cfg o n e)
  unfolding IsWell
  cpu_exec-IsWell n e v = cpu_exec-Ensures cfg o n e v

  -- An expression, evaluated on the machine of a well-formed emulator.
  expr-IsWell :
      (text : List ℕ) (e : Emulator D R)
      → IsValid e
      → Ensures
          (λ (r : Option ℕ × Machine D). IsValid (with_machine r.1 e))
          (expr cfg o.libc text e.machine)
  expr-IsWell text e v =
      Ensures-map (λ (r : Option ℕ × Machine D). Keeps e.machine.cpu r.1)
        (λ (r : Option ℕ × Machine D). IsValid (with_machine r.1 e))
        (expr cfg o.libc text e.machine) (λ r k. with_machine-IsValid cfg o e r.1 v k)
        (expr-Keeps cfg o.libc e.machine.cpu text e.machine (self-Keeps cfg o e v))

  run_si-IsWell :
      (args : Option (List ℕ)) (rest : List ℕ) (e : Emulator D R)
      → IsValid e
      → Ensures IsWell (run_si cfg o l args rest e)
  unfolding run_si
  run_si-IsWell none rest e v = cpu_exec-IsWell 1 e v
  run_si-IsWell (some args) rest e v =
      Ensures-bind _ IsWell (count_of cfg o l (l.strtok rest) rest) _
        (Ensures-any (count_of cfg o l (l.strtok rest) rest))
        λ n u. cpu_exec-IsWell (sign_extend n) e v

  -- What `x` leaves.
  Prints : List (ℕ × ℕ) × Emulator D R → Type 0
  Prints r = IsValid r.1

  print_words-IsWell :
      (n i a : ℕ) (e : Emulator D R) → IsValid e → Ensures Prints (print_words cfg o l n i a e)
  unfolding print_words vaddr_read Prints
  print_words-IsWell zero i a e v = v
  print_words-IsWell (suc n) i a e v = Ensures-guard Prints (ltb i (2 ^ 29)) undefined _ λ fits.
      Ensures-bind (λ (r : ℕ × Memory D). (r.0 < 2 ^ 32) × Valid.IsValid r.1) Prints
        (vaddr_read cfg (add32 a (i * 4)) 4 e.machine.memory) _
        (paddr_read-valid cfg (add32 a (i * 4)) 4 e.machine.memory v.machine.memory)
        λ r h.
          let e1 : Emulator D R = with_machine (record e.machine { memory = r.1 }) e in
          Ensures-bind Prints Prints (print_words cfg o l n (i + 1) a e1) _
            (print_words-IsWell n (i + 1) a e1 (record {
              machine = with_memory-IsValid cfg e.machine r.1 h.1 v.machine;
              x0 = v.x0;
              ring = v.ring;
              count = v.count;
            }))
            λ q k. k

  print_from-IsWell :
      (n : ℕ) (a : Option ℕ) (e : Emulator D R)
      → IsValid e
      → Ensures Prints (print_from cfg o l n a e)
  unfolding print_from Prints
  print_from-IsWell n none e v = v
  print_from-IsWell n (some a) e v = print_words-IsWell n 0 a e v

  run_x-IsWell :
      (token : Option (ℕ × ℕ)) (args : List ℕ) (e : Emulator D R)
      → IsValid e
      → Ensures Prints (run_x cfg o l token args e)
  unfolding run_x
  run_x-IsWell none args e v = unfold Prints in v
  run_x-IsWell (some (start, len)) args e v =
      Ensures-bind _ Prints (remain_of args start len) _ (Ensures-any (remain_of args start len))
        λ remain u.
          Ensures-bind (λ (r : Option ℕ × Machine D). IsValid (with_machine r.1 e)) Prints
            (expr cfg o.libc remain e.machine) _ (expr-IsWell remain e v)
            λ r k.
              print_from-IsWell (l.strtoul (take len (drop start args))) r.0 (with_machine r.1 e) k

  run_p-IsWell :
      (args : Option (List ℕ)) (e : Emulator D R)
      → IsValid e
      → Ensures IsWell (run_p cfg o l args e)
  unfolding run_p IsWell
  run_p-IsWell none e v = v
  run_p-IsWell (some args) e v =
      Ensures-bind (λ (r : Option ℕ × Machine D). IsValid (with_machine r.1 e)) IsWell
        (expr cfg o.libc args e.machine) _ (expr-IsWell args e v) λ r k. k

  watch-IsWell :
      (args : List ℕ) (v : Option ℕ) (e : Emulator D R)
      → IsValid e
      → Ensures IsWell (watch cfg o l args v e)
  unfolding watch IsWell
  watch-IsWell args none e h = h
  watch-IsWell args (some v) e h =
      Ensures-bind _ IsWell (add_wp args v e.pool) _ (Ensures-any (add_wp args v e.pool))
        λ p u. with_pool-IsValid e p h

  run_w-IsWell :
      (args : Option (List ℕ)) (e : Emulator D R)
      → IsValid e
      → Ensures IsWell (run_w cfg o l args e)
  unfolding run_w
  run_w-IsWell none e v = unfold IsWell in v
  run_w-IsWell (some args) e v =
      Ensures-bind (λ (r : Option ℕ × Machine D). IsValid (with_machine r.1 e)) IsWell
        (expr cfg o.libc args e.machine) _ (expr-IsWell args e v)
        λ r k. watch-IsWell args r.0 (with_machine r.1 e) k

  run_d-IsWell :
      (token : Option (ℕ × ℕ)) (args : List ℕ) (e : Emulator D R)
      → IsValid e
      → Ensures IsWell (run_d cfg o l token args e)
  unfolding run_d IsWell
  run_d-IsWell none args e v = v
  run_d-IsWell (some (start, len)) args e v =
      let no_ : ℕ = l.strtol (take len (drop start args)) in
      Ensures-if IsWell (is_neg32 no_) _ _ v (
        Ensures-bind _ IsWell (delete_wp no_ e.pool) _ (Ensures-any (delete_wp no_ e.pool))
          λ p u. with_pool-IsValid e p v)

  -- What a handler leaves.
  Handled : Bool × Emulator D R → Type 0
  Handled r = IsValid r.1

  goes_on :
      (r : Result (Emulator D R)) → Ensures IsWell r → Ensures Handled (r >>= λ e. ok (false, e))
  unfolding IsWell Handled
  goes_on r h = Ensures-bind IsWell Handled r _ h λ e v. v

  run_command-IsWell :
      (c : Command) (args : Option (List ℕ)) (rest : List ℕ) (e : Emulator D R)
      → IsValid e
      → Ensures Handled (run_command cfg o l c args rest e)
  unfolding run_command Handled Prints
  run_command-IsWell cmd_help args rest e v = v
  run_command-IsWell cmd_info args rest e v = v
  run_command-IsWell cmd_c args rest e v =
      goes_on (cpu_exec cfg o (2 ^ 64 - 1) e) (cpu_exec-IsWell (2 ^ 64 - 1) e v)
  run_command-IsWell cmd_q args rest e v =
      with_io-IsValid cfg o e e.machine.memory.bus.io quit e.updates v v.machine.memory.space
  run_command-IsWell cmd_si args rest e v =
      goes_on (run_si cfg o l args rest e) (run_si-IsWell args rest e v)
  run_command-IsWell cmd_x args rest e v =
      Ensures-bind Prints Handled
        (run_x cfg o l (l.strtok (args_or cfg o l args rest)) (args_or cfg o l args rest) e) _
        (run_x-IsWell (l.strtok (args_or cfg o l args rest)) (args_or cfg o l args rest) e v)
        λ r h. h
  run_command-IsWell cmd_p args rest e v = goes_on (run_p cfg o l args e) (run_p-IsWell args e v)
  run_command-IsWell cmd_w args rest e v = goes_on (run_w cfg o l args e) (run_w-IsWell args e v)
  run_command-IsWell cmd_d args rest e v =
      goes_on (run_d cfg o l (l.strtok (args_or cfg o l args rest)) (args_or cfg o l args rest) e)
        (run_d-IsWell (l.strtok (args_or cfg o l args rest)) (args_or cfg o l args rest) e v)

  run_line-IsWell :
      (token : Option (ℕ × ℕ)) (str : List ℕ) (e : Emulator D R)
      → IsValid e
      → Ensures Handled (run_line cfg o l token str e)
  unfolding run_line
  run_line-IsWell none str e v = unfold Handled in v
  run_line-IsWell (some (start, len)) str e v =
      elim (Option-cases (find_command cmd_table (take len (drop start str)))) [
        | inl unknown ↦ rw (unknown, Ensures) (unfold Handled in v)
        | inr (c, known) ↦
            rw (known, Ensures)
              (run_command-IsWell c (args_of cfg o l str start len) (drop (start + len + 1) str) e
                v)
      ]

  read_lines-IsWell :
      (lines : List (List ℕ)) (e : Emulator D R)
      → IsValid e
      → Ensures IsWell (read_lines cfg o l lines e)
  unfolding read_lines IsWell Handled
  read_lines-IsWell [] e v = v
  read_lines-IsWell (str ∷ lines) e v =
      Ensures-bind Handled IsWell (run_line cfg o l (l.strtok str) str e) _
        (run_line-IsWell (l.strtok str) str e v)
        λ r h. elim (Bool-cases r.0) [
          | inl ends ↦ rw (ends, Ensures) h
          | inr more ↦ rw (more, Ensures) (read_lines-IsWell lines r.1 h)
        ]

  sdb_mainloop-IsWell :
      (batch : Bool) (lines : List (List ℕ)) (e : Emulator D R)
      → IsValid e
      → Ensures IsWell (sdb_mainloop cfg o l batch lines e)
  unfolding sdb_mainloop
  sdb_mainloop-IsWell true lines e v = cpu_exec-IsWell (2 ^ 64 - 1) e v
  sdb_mainloop-IsWell false lines e v = read_lines-IsWell lines e v

  -- Whatever lines are typed into the debugger, and in batch mode: if its main loop comes back, the emulator is as
  -- well formed as it was, with x0 at 0, every register, CSR, memory and arena cell within its width, and the
  -- ring of instructions within its array. The devices' callbacks are taken to write bytes only.
  pub sdb_mainloop-IsValid :
      (batch : Bool) (lines : List (List ℕ)) (e : Emulator D R) {e' : Emulator D R}
      → IsValid e
      → sdb_mainloop cfg o l batch lines e ≡ ok e'
      → IsValid e'
  unfolding IsWell
  sdb_mainloop-IsValid batch lines e v is =
      subst (Ensures IsWell) is (sdb_mainloop-IsWell batch lines e v)
