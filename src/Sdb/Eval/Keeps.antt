-- ===== src/Sdb/Eval/Keeps.antt =====
-- Evaluating an expression changes no register and keeps the machine valid (nemu/src/monitor/sdb/expr.c); what a
-- device's callback does to a load is within that.
use my_oscpu.Base.{
  ℕ, zero, suc, ◌+◌, ◌≡◌, arith, List, [], ◌∷◌, take, drop, get_elem?, Option, none, some,
  Option-cases, inl, inr, Result, length,
}
use my_oscpu.Config.{Config}
use my_oscpu.Memory.Valid.{Ensures, Ensures-bind, Ensures-of_eq, paddr_read-valid}
use my_oscpu.Memory.Paddr.{vaddr_read}
use my_oscpu.Riscv.Machine.{Cpu, Machine}
use my_oscpu.Riscv.Registers.{isa_reg_str2val}
use my_oscpu.Riscv.Exec.{load_word}
use my_oscpu.Riscv.Exec.Valid.{IsValid, with_memory-IsValid}
use my_oscpu.Sdb.Token.{TokenType, Token, Libc, ParenStatus, enclosed, not_enclosed, not_matched}
use my_oscpu.Sdb.Eval.{
  eval_single, apply_unary, apply_binary, eval_binary, eval_signed, eval_compound, eval_step, eval,
  signed_number, init_of, check_parentheses, find_main_operator, types_of,
}
use my_oscpu.Sdb.Expr.{expr, make_token}

module _ {D : Type 0} where
  -- A valid machine with the registers of `c`.
  pub record Keeps (c : Cpu) (m : Machine D) : Type 0 where
    pub valid : IsValid m
    pub same : m.cpu ≡ c

module _ {D : Type 0} (cfg : Config) (lib : Libc) (c : Cpu) where
  KeepsAfter : ℕ × Machine D → Type 0
  KeepsAfter r = Keeps c r.1

  load_word-Keeps :
      (addr len : ℕ) (m : Machine D) → Keeps c m → Ensures KeepsAfter (load_word cfg addr len m)
  unfolding load_word vaddr_read KeepsAfter
  load_word-Keeps addr len m k =
      Ensures-bind _ KeepsAfter (vaddr_read cfg addr len m.memory) _
        (paddr_read-valid cfg addr len m.memory k.valid.memory)
        λ r p. record { valid = with_memory-IsValid cfg m r.1 p.1 k.valid; same = k.same }

  eval_single-Keeps :
      (t : TokenType) (str : List ℕ) (m : Machine D)
      → Keeps c m
      → Ensures KeepsAfter (eval_single cfg lib t str m)
  unfolding eval_single KeepsAfter
  eval_single-Keeps t str m k = elim (Option-cases (isa_reg_str2val cfg m.cpu str)) [
    | inl absent ↦ ground (arith, absent, k)
    | inr (v, found) ↦ ground (arith, found, k)
  ]

  apply_unary-Keeps :
      (t : TokenType) (v : ℕ) (m : Machine D)
      → Keeps c m
      → Ensures KeepsAfter (apply_unary cfg lib t v m)
  unfolding apply_unary KeepsAfter
  apply_unary-Keeps t v m k = ground (arith, load_word-Keeps v 4 m k, k)

  module _ (rec : List Token → Machine D → Result (ℕ × Machine D))
      (keeps : (seg : List Token) (m : Machine D)
        → Keeps c m
        → Ensures KeepsAfter (rec seg m)) where
    eval_binary-Keeps :
        (seg : List Token) (op : Option ℕ) (m : Machine D)
        → Keeps c m
        → Ensures KeepsAfter (eval_binary cfg lib rec seg op m)
    unfolding eval_binary KeepsAfter
    eval_binary-Keeps seg none m k =
        Ensures-bind KeepsAfter KeepsAfter (rec [] m) _ (keeps [] m k) λ r p. tt
    eval_binary-Keeps seg (some i) m k =
        Ensures-bind KeepsAfter KeepsAfter (rec (take i seg) m) _ (keeps (take i seg) m k) λ r p.
          Ensures-bind KeepsAfter KeepsAfter (rec (drop (i + 1) seg) r.1) _
            (keeps (drop (i + 1) seg) r.1 p)
            λ q p'. elim (Option-cases (get_elem? seg i)) [
              | inl absent ↦ rw absent tt
              | inr (t, found) ↦ rw found (
                  Ensures-bind (λ (v : ℕ). Unit {0}) KeepsAfter (apply_binary t.type r.0 q.0) _
                    (Ensures-of_eq _ (apply_binary t.type r.0 q.0) (λ v e. tt)) λ v u. p')
            ]

    eval_signed-Keeps :
        (v : Option ℕ) (seg : List Token) (op : Option ℕ) (m : Machine D)
        → Keeps c m
        → Ensures KeepsAfter (eval_signed cfg lib rec v seg op m)
    unfolding eval_signed KeepsAfter
    eval_signed-Keeps (some v) seg op m k = k
    eval_signed-Keeps none seg op m k = eval_binary-Keeps seg op m k

    eval_compound-Keeps :
        (t u : Token) (ts : List Token) (p : ParenStatus) (op : Option ℕ) (m : Machine D)
        → Keeps c m
        → Ensures KeepsAfter (eval_compound cfg lib rec t u ts p op m)
    unfolding eval_compound
    eval_compound-Keeps t u ts enclosed op m k = keeps (init_of (u ∷ ts)) m k
    eval_compound-Keeps t u ts not_matched op m k = tt
    eval_compound-Keeps t u ts not_enclosed (some zero) m k =
        Ensures-bind KeepsAfter KeepsAfter (rec (u ∷ ts) m) _ (keeps (u ∷ ts) m k)
          λ r p. apply_unary-Keeps t.type r.0 r.1 (unfold KeepsAfter in p)
    eval_compound-Keeps t u ts not_enclosed (some (suc i)) m k =
        eval_signed-Keeps (signed_number lib t.type u) (t ∷ u ∷ ts) (some (suc i)) m k
    eval_compound-Keeps t u ts not_enclosed none m k =
        eval_signed-Keeps (signed_number lib t.type u) (t ∷ u ∷ ts) none m k

    eval_step-Keeps :
        (seg : List Token) (m : Machine D)
        → Keeps c m
        → Ensures KeepsAfter (eval_step cfg lib rec seg m)
    unfolding eval_step
    eval_step-Keeps [] m k = tt
    eval_step-Keeps (t ∷ []) m k = eval_single-Keeps t.type t.str m k
    eval_step-Keeps (t ∷ u ∷ ts) m k =
        eval_compound-Keeps t u ts (check_parentheses (types_of (t ∷ u ∷ ts)))
          (find_main_operator (types_of (t ∷ u ∷ ts))) m k

  eval-Keeps :
      (fuel : ℕ) (seg : List Token) (m : Machine D)
      → Keeps c m
      → Ensures KeepsAfter (eval cfg lib fuel seg m)
  unfolding eval
  eval-Keeps zero seg m k = tt
  eval-Keeps (suc fuel) seg m k = eval_step-Keeps (eval cfg lib fuel) (eval-Keeps fuel) seg m k

  pub expr-Keeps :
      (e : List ℕ) (m : Machine D)
      → Keeps c m
      → Ensures (λ (r : Option ℕ × Machine D). Keeps c r.1) (expr cfg lib e m)
  unfolding expr KeepsAfter
  expr-Keeps e m k =
      Ensures-bind (λ (made : Option (List Token)). Unit {0}) _ (make_token (length e + 1) lib [] e)
        _ (Ensures-of_eq _ (make_token (length e + 1) lib [] e) (λ made q. tt))
        λ made u. elim (Option-cases made) [
          | inl is ↦ rw is k
          | inr (toks, is) ↦ rw is (
              Ensures-bind KeepsAfter (λ (r : Option ℕ × Machine D). Keeps c r.1)
                (eval cfg lib (length toks + 1) toks m) _ (eval-Keeps (length toks + 1) toks m k)
                λ r p. unfold KeepsAfter in p)
        ]
