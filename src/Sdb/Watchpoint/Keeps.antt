-- ===== src/Sdb/Watchpoint/Keeps.antt =====
-- `check_wp` of nemu/src/monitor/sdb/watchpoint.c changes no register.
use my_oscpu.Base.{ℕ, zero, suc, List, Option, none, some, ◌==◌, Bool-cases, inl, inr}
use my_oscpu.Config.{Config}
use my_oscpu.Memory.Valid.{Ensures, Ensures-bind}
use my_oscpu.Riscv.Machine.{Cpu, Machine}
use my_oscpu.Sdb.Token.{Libc}
use my_oscpu.Sdb.Expr.{expr}
use my_oscpu.Sdb.Eval.Keeps.{Keeps, expr-Keeps}
use my_oscpu.Sdb.Watchpoint.{Pool, nr_wp}
use my_oscpu.Sdb.Watchpoint.Check.{check_value, check_one, check_loop, check_wp}

module _ {D : Type 0} (cfg : Config) (lib : Libc) (c : Cpu) where
  KeepsBehind : Pool × Machine D → Type 0
  KeepsBehind r = Keeps c r.1

  check_value-Keeps :
      (wp : ℕ) (v : Option ℕ) (p : Pool) (m : Machine D)
      → Keeps c m
      → Ensures KeepsBehind (check_value cfg lib wp v p m)
  unfolding check_value KeepsBehind
  check_value-Keeps wp none p m k = tt
  check_value-Keeps wp (some v) p m k = elim (Bool-cases (v == p.value wp)) [
    | inl same ↦ rw same k
    | inr changed ↦ rw changed (record {
      valid = record {
        words = k.valid.words;
        csrs = k.valid.csrs;
        memory = k.valid.memory;
        pc = k.valid.pc;
      };
      same = k.same;
    })
  ]

  check_one-Keeps :
      (wp : ℕ) (e : Option (List ℕ)) (p : Pool) (m : Machine D)
      → Keeps c m
      → Ensures KeepsBehind (check_one cfg lib wp e p m)
  unfolding check_one
  check_one-Keeps wp none p m k = tt
  check_one-Keeps wp (some e) p m k =
      Ensures-bind (λ (r : Option ℕ × Machine D). Keeps c r.1) KeepsBehind (expr cfg lib e m) _
        (expr-Keeps cfg lib c e m k) λ r h. check_value-Keeps wp r.0 p r.1 h

  check_loop-Keeps :
      (fuel : ℕ) (wp : Option ℕ) (p : Pool) (m : Machine D)
      → Keeps c m
      → Ensures KeepsBehind (check_loop cfg lib fuel wp p m)
  unfolding check_loop
  check_loop-Keeps zero wp p m k = tt
  check_loop-Keeps (suc fuel) none p m k = unfold KeepsBehind in k
  check_loop-Keeps (suc fuel) (some wp) p m k =
      Ensures-bind KeepsBehind KeepsBehind (check_one cfg lib wp (p.expression wp) p m) _
        (check_one-Keeps wp (p.expression wp) p m k)
        λ r h. check_loop-Keeps fuel (r.0.next wp) r.0 r.1 (unfold KeepsBehind in h)

  pub check_wp-Keeps :
      (p : Pool) (m : Machine D)
      → Keeps c m
      → Ensures (λ (r : Pool × Machine D). Keeps c r.1) (check_wp cfg lib p m)
  unfolding check_wp KeepsBehind
  check_wp-Keeps p m k = check_loop-Keeps (suc nr_wp) p.head p m k
