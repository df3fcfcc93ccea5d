-- ===== src/Sdb/Eval/Grammar/Scan.antt =====
-- The scan for the main operator on segments of the grammar.
use my_oscpu.Base.{
  ℕ, suc, ◌+◌, ◌^◌, ◌≤◌, ◌<◌, ◌≡◌, inl, inr, refl, sym, ap, ◌∙◌, arith, List, [], ◌∷◌, ◌++◌, some,
  length, length-append, false, ◌==◌, leb, Bool-cases,
}
use my_oscpu.Config.{Config}
use my_oscpu.Riscv.Machine.{Machine}
use my_oscpu.Sdb.Token.{lb, rb, Token, Libc}
use my_oscpu.Sdb.Eval.{
  types_of, get_operator_priority, Scan, scan_loop, scan_start, int_max, find_main_operator,
}
use my_oscpu.Sdb.Eval.Grammar.{Parse, operand, bracket, binary}
use my_oscpu.Sdb.Eval.Grammar.Passes.{
  token_inside, operand_inside, deeper, Passes, Passes-one, Passes-append, deeper_inside,
  deeper_fits, Passes-bracket, raised, token_higher, token_lower, operand_higher, operand_lower,
  PassesAt, PassesAt-one, PassesAt-append,
}

module _ {D : Type 0} (cfg : Config) (c : Libc) (m : Machine D) where
  -- Inside brackets the scan changes nothing.
  Passes-inside :
      {k v : ℕ} {seg : List Token} (s : Scan)
      → Parse cfg c m k seg v
      → (s.parentheses_layer == 0) ≡ false
      → s.parentheses_layer + length seg < 2 ^ 32
      → Passes seg s s
  Passes-inside s (operand t h o e) l b = Passes-one t s s (λ i. operand_inside i s o l)
  Passes-inside s (bracket {seg} t u h e f p) l b =
      Passes-bracket s t u seg e f (omega (arith, b, length-append seg (u ∷ []))) (
        Passes-inside (deeper s) p (deeper_inside s (omega (arith, b)))
          (deeper_fits s seg (omega (arith, b, length-append seg (u ∷ [])))))
  Passes-inside s (binary {l} {r} o h g p q e) ly b =
      Passes-append l (o ∷ r) s s s
        (Passes-inside s p ly (omega (arith, b, length-append l (o ∷ r))))
        (Passes-append (o ∷ []) r s s s (Passes-one o s s (λ i. token_inside i o.type s g ly))
          (Passes-inside s q ly (omega (arith, b, length-append l (o ∷ r)))))

module _ {D : Type 0} (cfg : Config) (c : Libc) (m : Machine D) where
  Passes-bracketed :
      {v : ℕ} {seg : List Token} (s : Scan) (t u : Token)
      → t.type ≡ lb
      → u.type ≡ rb
      → Parse cfg c m 0 seg v
      → s.parentheses_layer ≡ 0
      → length (t ∷ seg ++ u ∷ []) < 2 ^ 32
      → Passes (t ∷ seg ++ u ∷ []) s s
  Passes-bracketed {seg} s t u e f p z b = Passes-bracket s t u seg e f (omega (arith, z)) (
      Passes-inside cfg c m (deeper s) p (deeper_inside s (omega (arith, z)))
        (deeper_fits s seg (omega (arith, z, b, length-append seg (u ∷ [])))))

  -- Outside brackets, a segment whose operators all bind more tightly than the main operator so far
  -- does not change it.
  Passes-higher :
      {k v : ℕ} {seg : List Token} (s : Scan)
      → Parse cfg c m k seg v
      → s.parentheses_layer ≡ 0
      → s.min_priority < k
      → k ≤ 6
      → length seg < 2 ^ 32
      → Passes seg s s
  Passes-higher s (operand t h o e) z l k b =
      Passes-one t s s (λ i. operand_higher i s o (omega (arith, l, k)))
  Passes-higher s (bracket t u h e f p) z l k b = Passes-bracketed s t u e f p z b
  Passes-higher s (binary {l} {r} o h g p q e) z less k b =
      let sizes : length (l ++ o ∷ r) ≡ length l + suc (length r) = length-append l (o ∷ r) in
      Passes-append l (o ∷ r) s s s
        (Passes-higher s p z (omega (arith, less, h)) (omega (arith, g)) (omega (arith, b, sizes)))
        (Passes-append (o ∷ []) r s s s
          (Passes-one o s s (λ i. token_higher i o.type s g (omega (arith, less, h))))
          (Passes-higher s q z (omega (arith, less, h)) (omega (arith, g))
            (omega (arith, b, sizes))))

  -- Behind a left operand, the operator is the main one, and the right operand does not change that.
  PassesAt-main :
      {v : ℕ} {r : List Token} (i : ℕ) (s s' : Scan) (l : List Token) (o : Token)
      → get_operator_priority o.type ≤ 5
      → PassesAt i l s s'
      → s'.parentheses_layer ≡ 0
      → get_operator_priority o.type ≤ s'.min_priority
      → Parse cfg c m (suc (get_operator_priority o.type)) r v
      → length r < 2 ^ 32
      → PassesAt i (l ++ o ∷ r) s (raised (i + length l) (get_operator_priority o.type) s')
  PassesAt-main {r} i s s' l o g p z low q b =
      let main : Scan = raised (i + length l) (get_operator_priority o.type) s' in
      PassesAt-append i l (o ∷ r) s s' main p (
        PassesAt-append (i + length l) (o ∷ []) r s' main main
          (PassesAt-one (i + length l) o s' main (token_lower (i + length l) o.type s' g z low))
          (Passes-higher main q z (omega arith) (omega (arith, g)) b (i + length l + 1)))

  -- What the scan leaves behind a segment whose operators bind at least as tightly as `k`.
  abbrev pub Kept : ℕ → ℕ → List Token → Scan → Scan → Type 0
  Kept k i seg s s' = PassesAt i seg s s' × (s'.parentheses_layer ≡ 0) × (k ≤ s'.min_priority)

  -- Outside brackets, with nothing yet that binds less tightly than `k`, none is found.
  Passes-lower :
      {k v : ℕ} {seg : List Token} (i : ℕ) (s : Scan)
      → Parse cfg c m k seg v
      → s.parentheses_layer ≡ 0
      → k ≤ s.min_priority
      → k ≤ 6
      → length seg < 2 ^ 32
      → (s' : Scan) × Kept k i seg s s'
  Passes-lower i s (operand t h o e) z l k b = elim (Bool-cases (leb int_max s.min_priority)) [
    | inl high ↦ (
      raised i int_max s,
      (PassesAt-one i t s _ (operand_lower i s o z (ground (arith, high))), z, omega (arith, k)),
    )
    | inr low ↦ (s, (PassesAt-one i t s s (operand_higher i s o (ground (arith, low))), z, l))
  ]
  Passes-lower i s (bracket t u h e f p) z l k b = (s, (Passes-bracketed s t u e f p z b i, z, l))
  Passes-lower i s (binary {l} {r} o h g p q e) z less k b =
      let sizes : length (l ++ o ∷ r) ≡ length l + suc (length r) = length-append l (o ∷ r) in
      elim (Bool-cases (leb (get_operator_priority o.type) s.min_priority)) [
        | inl low ↦
            let (s', (passed, zero', least)) =
              Passes-lower i s p z (ground (arith, low)) (omega (arith, g))
                (omega (arith, b, sizes)) in
            (
              raised (i + length l) (get_operator_priority o.type) s',
              (PassesAt-main i s s' l o g passed zero' least q (omega (arith, b, sizes)), zero', h),
            )
        | inr high ↦
            let above : s.min_priority < get_operator_priority o.type = ground (arith, high) in
            (
              s,
              (
                Passes-append l (o ∷ r) s s s
                    (Passes-higher s p z above (omega (arith, g)) (omega (arith, b, sizes)))
                    (Passes-append (o ∷ []) r s s s
                      (Passes-one o s s (λ n. token_higher n o.type s g above))
                      (Passes-higher s q z (omega (arith, above)) (omega (arith, g))
                        (omega (arith, b, sizes))))
                    i,
                z,
                less,
              ),
            )
      ]

  -- The main operator of a binary expression is the one that the grammar splits it at.
  pub find_main_operator-Parse :
      {a b : ℕ} {l r : List Token} (o : Token)
      → get_operator_priority o.type ≤ 5
      → Parse cfg c m (get_operator_priority o.type) l a
      → Parse cfg c m (suc (get_operator_priority o.type)) r b
      → length (l ++ o ∷ r) < 2 ^ 32
      → find_main_operator (types_of (l ++ o ∷ r)) ≡ some (length l)
  unfolding find_main_operator
  find_main_operator-Parse {l} {r} o g p q b =
      let sizes : length (l ++ o ∷ r) ≡ length l + suc (length r) = length-append l (o ∷ r) in
      let (s', (passed, zero', least)) =
        Passes-lower 0 scan_start p refl (omega (arith, g)) (omega (arith, g))
          (omega (arith, b, sizes)) in
      let whole =
        PassesAt-main 0 scan_start s' l o g passed zero' least q (omega (arith, b, sizes)) [] in
      ap (λ x. (scan_loop 0 (types_of x) scan_start).op) (sym (append-nil (l ++ o ∷ r)))
      ∙ ap (λ (x : Scan). x.op) whole
      ∙ ap some (from_zero (length l))
    where
      from_zero : (n : ℕ) → 0 + n ≡ n
      from_zero n = omega arith

      append-nil : (xs : List Token) → xs ++ [] ≡ xs
      append-nil [] = refl
      append-nil (x ∷ xs) = ap (λ ys. x ∷ ys) (append-nil xs)
