-- ===== src/Sdb/Eval/Halts.antt =====
-- `eval` of nemu/src/monitor/sdb/expr.c ends: every segment that it is called on is shorter than the one it was
-- given.
use my_oscpu.Base.{
  ℕ, zero, suc, ◌+◌, ◌≤◌, ◌<◌, ◌≡◌, refl, ap, subst, arith, List, [], ◌∷◌, take, drop, length,
  get_elem?, Option, none, some, Option-cases, inl, inr, Result, ok, err, panic, undefined,
  out_of_fuel, Halts, Halts-bind,
}
use my_oscpu.Config.{Config}
use my_oscpu.Memory.Paddr.{vaddr_read}
use my_oscpu.Memory.Halts.{Returns, AllReturn, LeavesReturning, paddr_read-Returns}
use my_oscpu.Riscv.Machine.{Machine}
use my_oscpu.Riscv.Registers.{isa_reg_str2val}
use my_oscpu.Riscv.Exec.{load_word}
use my_oscpu.Riscv.Alu.{sdiv32}
use my_oscpu.Sdb.Token.{TokenType, Token, Libc, ParenStatus, enclosed, not_enclosed, not_matched}
use my_oscpu.Sdb.Eval.{
  find_main_operator, eval_single, apply_unary, apply_binary, eval_binary, eval_signed,
  eval_compound, eval_step, eval, signed_number, init_of, check_parentheses, types_of,
}
use my_oscpu.Sdb.Eval.Operator.{Below, find_main_operator-Below}
use my_oscpu.Sdb.Expr.{expr, make_token}
use my_oscpu.Sdb.Expr.Progress.{NotEmpty, Ends, make_token-Ends}

length-take_le : (i : ℕ) (seg : List Token) → length (take i seg) ≤ i
length-take_le zero seg = omega arith
length-take_le (suc i) [] = omega arith
length-take_le (suc i) (t ∷ seg) = omega (arith, length-take_le i seg)

length-drop_le : (i : ℕ) (seg : List Token) → length (drop i seg) ≤ length seg
length-drop_le zero seg = omega arith
length-drop_le (suc i) [] = omega arith
length-drop_le (suc i) (t ∷ seg) = omega (arith, length-drop_le i seg)

length-drop_lt :
    (i : ℕ) (seg : List Token) → 0 < length seg → length (drop (i + 1) seg) < length seg
length-drop_lt i [] p = absurd (omega (arith, p))
length-drop_lt i (t ∷ seg) p =
    subst (λ k. length (drop k (t ∷ seg)) < suc (length seg)) (plus_one i)
      (omega (arith, length-drop_le i seg))
  where
    plus_one : (i : ℕ) → suc i ≡ i + 1
    plus_one i = omega arith

apply_binary-Returns : (t : TokenType) (a b : ℕ) → Returns (apply_binary t a b)
unfolding apply_binary sdiv32
apply_binary-Returns t a b = ground arith

length-init_of : (u : Token) (ts : List Token) → length (init_of (u ∷ ts)) ≤ length ts
length-init_of u [] = omega arith
length-init_of u (t ∷ ts) = omega (arith, length-init_of t ts)

length-types_of : (ts : List Token) → length (types_of ts) ≡ length ts
length-types_of [] = refl
length-types_of (t ∷ ts) = ap suc (length-types_of ts)

Ends-Halts : (r : Result (Option (List Token))) → Ends r → Returns r
Ends-Halts (ok made) h = tt
Ends-Halts (err out_of_fuel) h = absurd (h refl)
Ends-Halts (err (panic s)) h = tt
Ends-Halts (err undefined) h = tt

module _ {D : Type 0} (cfg : Config) (c : Libc) where
  -- The machine's callbacks still come back.
  Leaves : ℕ × Machine D → Type 0
  Leaves r = AllReturn r.1.memory.bus.maps

  load_word-Leaves :
      (addr len : ℕ) (m : Machine D)
      → AllReturn m.memory.bus.maps
      → Halts Leaves (load_word cfg addr len m)
  unfolding load_word vaddr_read Leaves
  load_word-Leaves addr len m h =
      Halts-bind (LeavesReturning cfg) Leaves (vaddr_read cfg addr len m.memory) _
        (paddr_read-Returns cfg addr len m.memory h) λ r k. k

  eval_single-Leaves :
      (t : TokenType) (str : List ℕ) (m : Machine D)
      → AllReturn m.memory.bus.maps
      → Halts Leaves (eval_single cfg c t str m)
  unfolding eval_single Leaves
  eval_single-Leaves t str m h = elim (Option-cases (isa_reg_str2val cfg m.cpu str)) [
    | inl absent ↦ ground (arith, absent, h)
    | inr (v, found) ↦ ground (arith, found, h)
  ]

  apply_unary-Leaves :
      (t : TokenType) (v : ℕ) (m : Machine D)
      → AllReturn m.memory.bus.maps
      → Halts Leaves (apply_unary cfg c t v m)
  unfolding apply_unary Leaves
  apply_unary-Leaves t v m h = ground (arith, load_word-Leaves v 4 m h, h)

  module _ (rec : List Token → Machine D → Result (ℕ × Machine D)) (n : ℕ)
      (halts : (seg : List Token) (m : Machine D)
        → length seg < n
        → AllReturn m.memory.bus.maps
        → Halts Leaves (rec seg m)) where
    eval_binary-Leaves :
        (seg : List Token) (op : Option ℕ) (m : Machine D)
        → length seg ≤ n
        → 0 < length seg
        → Below (length seg) op
        → AllReturn m.memory.bus.maps
        → Halts Leaves (eval_binary cfg c rec seg op m)
    unfolding eval_binary Leaves
    eval_binary-Leaves seg none m l p b h =
        Halts-bind Leaves Leaves (rec [] m) _ (halts [] m (omega (arith, l, p)) h) λ r k. tt
    eval_binary-Leaves seg (some i) m l p b h =
        Halts-bind Leaves Leaves (rec (take i seg) m) _
          (halts (take i seg) m (omega (arith, length-take_le i seg, b, l)) h)
          λ r k.
            Halts-bind Leaves Leaves (rec (drop (i + 1) seg) r.1) _
              (halts (drop (i + 1) seg) r.1 (omega (arith, length-drop_lt i seg p, l)) k)
              λ q k'. elim (Option-cases (get_elem? seg i)) [
                | inl absent ↦ rw (absent, Halts) tt
                | inr (t, found) ↦
                    rw (found, Halts)
                      (Halts-bind (λ (v : ℕ). Unit {0}) Leaves (apply_binary t.type r.0 q.0) _
                        (apply_binary-Returns t.type r.0 q.0) λ v u. k')
              ]

    eval_signed-Leaves :
        (v : Option ℕ) (seg : List Token) (op : Option ℕ) (m : Machine D)
        → length seg ≤ n
        → 0 < length seg
        → Below (length seg) op
        → AllReturn m.memory.bus.maps
        → Halts Leaves (eval_signed cfg c rec v seg op m)
    unfolding eval_signed
    eval_signed-Leaves (some v) seg op m l p b h = unfold Leaves in h
    eval_signed-Leaves none seg op m l p b h = eval_binary-Leaves seg op m l p b h

    eval_compound-Leaves :
        (t u : Token) (ts : List Token) (p : ParenStatus) (op : Option ℕ) (m : Machine D)
        → suc (suc (length ts)) ≤ n
        → Below (suc (suc (length ts))) op
        → AllReturn m.memory.bus.maps
        → Halts Leaves (eval_compound cfg c rec t u ts p op m)
    unfolding eval_compound Leaves
    eval_compound-Leaves t u ts enclosed op m l b h =
        halts (init_of (u ∷ ts)) m (omega (arith, length-init_of u ts, l)) h
    eval_compound-Leaves t u ts not_matched op m l b h = tt
    eval_compound-Leaves t u ts not_enclosed (some zero) m l b h =
        Halts-bind Leaves Leaves (rec (u ∷ ts) m) _ (halts (u ∷ ts) m (omega (arith, l)) h)
          λ r k. apply_unary-Leaves t.type r.0 r.1 k
    eval_compound-Leaves t u ts not_enclosed (some (suc i)) m l b h =
        eval_signed-Leaves (signed_number c t.type u) (t ∷ u ∷ ts) (some (suc i)) m l (omega arith)
          b h
    eval_compound-Leaves t u ts not_enclosed none m l b h =
        eval_signed-Leaves (signed_number c t.type u) (t ∷ u ∷ ts) none m l (omega arith) b h

    eval_step-Leaves :
        (seg : List Token) (m : Machine D)
        → length seg ≤ n
        → AllReturn m.memory.bus.maps
        → Halts Leaves (eval_step cfg c rec seg m)
    unfolding eval_step
    eval_step-Leaves [] m l h = tt
    eval_step-Leaves (t ∷ []) m l h = eval_single-Leaves t.type t.str m h
    eval_step-Leaves (t ∷ u ∷ ts) m l h =
        eval_compound-Leaves t u ts (check_parentheses (types_of (t ∷ u ∷ ts)))
          (find_main_operator (types_of (t ∷ u ∷ ts))) m (omega (arith, l))
          (subst (λ k. Below k (find_main_operator (types_of (t ∷ u ∷ ts))))
            (length-types_of (t ∷ u ∷ ts)) (find_main_operator-Below (types_of (t ∷ u ∷ ts))))
          h

  eval-Leaves :
      (fuel : ℕ) (seg : List Token) (m : Machine D)
      → length seg < fuel
      → AllReturn m.memory.bus.maps
      → Halts Leaves (eval cfg c fuel seg m)
  unfolding eval
  eval-Leaves zero seg m l h = absurd (omega arith)
  eval-Leaves (suc fuel) seg m l h =
      eval_step-Leaves (eval cfg c fuel) fuel (λ s m'. eval-Leaves fuel s m') seg m
        (omega (arith, l)) h

  -- Where no expression matches the empty text and the devices' callbacks come back, `expr` ends on every text: in a
  -- value, in a failure, or in a fault of the source. The fuel that the model gives its loops is enough.
  pub expr-Halts :
      (text : List ℕ) (m : Machine D)
      → NotEmpty c
      → AllReturn m.memory.bus.maps
      → Halts (λ (r : Option ℕ × Machine D). AllReturn r.1.memory.bus.maps) (expr cfg c text m)
  unfolding expr Leaves
  expr-Halts text m n h =
      Halts-bind (λ (made : Option (List Token)). Unit {0}) _
        (make_token (length text + 1) c [] text) _
        (Ends-Halts (make_token (length text + 1) c [] text)
          (make_token-Ends (length text + 1) c [] text n (omega arith) (omega arith)))
        λ made u. elim (Option-cases made) [
          | inl is ↦ rw (is, Halts) h
          | inr (toks, is) ↦
              rw (is, Halts)
                (Halts-bind Leaves (λ (r : Option ℕ × Machine D). AllReturn r.1.memory.bus.maps)
                  (eval cfg c (length toks + 1) toks m) _
                  (eval-Leaves (length toks + 1) toks m (omega arith) h) λ r k. k)
        ]
