-- ===== src/Riscv/Table/Exclusive.antt =====
-- The rows of the instruction table exclude one another, but for the last, which takes every word: so
-- decoding is total and does not depend on the order of the rows (nemu/src/isa/riscv32/inst.c).
use my_oscpu.Base.{
  ℕ, zero, suc, ◌<◌, ◌+◌, ◌≡◌, refl, sym, ap, ◌∙◌, arith, Bool, true, false, ◌&&◌, Option, none,
  some, List, [], ◌∷◌, codes, Result, ok, err, Bool-cases, inl, inr, &&-eq_true, subst,
  if◌then◌else◌, get_elem?, length,
}
use my_oscpu.Riscv.Pattern.{Decoded, pattern_decode, instpat_test}
use my_oscpu.Riscv.Pattern.Sound.{fits, symbols, instpat_test-pattern_decode}
use my_oscpu.Riscv.Pattern.Conflict.{conflict, fits-conflict}
use my_oscpu.Riscv.Table.{Row, rows, find_row}

-- The bits of a row, last first, and the words that it stands for.
abbrev pub bits_of : Row → List ℕ
bits_of r = symbols (codes r.pattern_)

abbrev pub takes : Row → ℕ → Bool
takes r w = fits (bits_of r) w

decodes : Row → Bool
decodes r = elim (pattern_decode (codes r.pattern_)) [ ok d ↦ true | err f ↦ false ]

all_decode : List Row → Bool
unfolding decodes
all_decode [] = true
all_decode (r ∷ rs) = decodes r && all_decode rs

-- The row conflicts with each of the list but its last.
conflicts_with : Row → List Row → Bool
conflicts_with r [] = true
conflicts_with r (s ∷ []) = true
conflicts_with r (s ∷ t ∷ rs) = conflict (bits_of r) (bits_of s) && conflicts_with r (t ∷ rs)

all_conflict : List Row → Bool
unfolding conflicts_with
all_conflict [] = true
all_conflict (r ∷ rs) = conflicts_with r rs && all_conflict rs

rows_decode : all_decode rows ≡ true
unfolding all_decode rows pattern_decode
rows_decode = refl

rows_conflict : all_conflict rows ≡ true
unfolding all_conflict rows conflict
rows_conflict = refl

-- The table read with the meaning of its patterns.
first_taking : List Row → ℕ → Option Row
first_taking [] w = none
first_taking (r ∷ rs) w = if takes r w then some r else first_taking rs w

decodes-inv :
    (r : Row) → decodes r ≡ true → (d : Decoded) × (pattern_decode (codes r.pattern_) ≡ ok d)
unfolding decodes
decodes-inv r h = go (pattern_decode (codes r.pattern_)) refl h
  where
    go :
        (res : Result Decoded)
        → pattern_decode (codes r.pattern_) ≡ res
        → elim res as (λ _. Bool) [ ok d ↦ true | err f ↦ false ] ≡ true
        → (d : Decoded) × (pattern_decode (codes r.pattern_) ≡ ok d)
    go (ok d) e h = (d, e)
    go (err f) e h = cc

find_row-cons :
    (r : Row) (rs : List Row) (w : ℕ) {d : Decoded}
    → pattern_decode (codes r.pattern_) ≡ ok d
    → find_row (r ∷ rs) w ≡ (if instpat_test w d then ok (some r) else find_row rs w)
unfolding find_row
find_row-cons r rs w e = rw e

find_row-first_taking :
    (rs : List Row) (w : ℕ) → all_decode rs ≡ true → find_row rs w ≡ ok (first_taking rs w)
unfolding first_taking all_decode
find_row-first_taking [] w h = unfold find_row in refl
find_row-first_taking (r ∷ rs) w h =
    let (here, later) = &&-eq_true (decodes r) (all_decode rs) h in
    let (d, e) = decodes-inv r here in
    find_row-cons r rs w e
    ∙ ap (λ b. if b then ok (some r) else find_row rs w)
        (instpat_test-pattern_decode (codes r.pattern_) w e)
    ∙ ground (arith, find_row-first_taking rs w later)

conflicts_with_sound :
    (r s : Row) (rs : List Row) (i w : ℕ)
    → conflicts_with r rs ≡ true
    → get_elem? rs i ≡ some s
    → i + 1 < length rs
    → takes r w ≡ true
    → takes s w ≡ true
    → ⊥
unfolding conflicts_with
conflicts_with_sound r s [] i w c e l p q = cc
conflicts_with_sound r s (t ∷ []) i w c e l p q = absurd (omega arith)
conflicts_with_sound r s (t ∷ u ∷ rs) zero w c e l p q =
    let (here, _) = &&-eq_true (conflict (bits_of r) (bits_of t)) (conflicts_with r (u ∷ rs)) c in
    let same : t ≡ s = cc in
    fits-conflict (bits_of r) (bits_of t) w here p (subst (λ x. takes x w ≡ true) (sym same) q)
conflicts_with_sound r s (t ∷ u ∷ rs) (suc i) w c e l p q =
    let (_, later) = &&-eq_true (conflict (bits_of r) (bits_of t)) (conflicts_with r (u ∷ rs)) c in
    conflicts_with_sound r s (u ∷ rs) i w later e (omega arith) p q

first_taking_unique :
    (rs : List Row) (r : Row) (i w : ℕ)
    → all_conflict rs ≡ true
    → get_elem? rs i ≡ some r
    → i + 1 < length rs
    → takes r w ≡ true
    → first_taking rs w ≡ some r
unfolding first_taking all_conflict
first_taking_unique [] r i w c e l p = cc
first_taking_unique (t ∷ rs) r zero w c e l p = let same : t ≡ r = cc in rw (same, p)
first_taking_unique (t ∷ rs) r (suc i) w c e l p =
    let (here, later) = &&-eq_true (conflicts_with t rs) (all_conflict rs) c in
    elim (Bool-cases (takes t w)) [
      | inl taken ↦ absurd (conflicts_with_sound t r rs i w here e (omega arith) taken p)
      | inr passed ↦ rw passed (first_taking_unique rs r i w later e (omega arith) p)
    ]

-- Whatever the order of the rows: a word that fits the pattern of any row but the last is decoded as
-- that row, so no word fits two of them.
pub find_row_unique :
    (i w : ℕ) (r : Row)
    → get_elem? rows i ≡ some r
    → i + 1 < length rows
    → takes r w ≡ true
    → find_row rows w ≡ ok (some r)
find_row_unique i w r e l p =
    find_row-first_taking rows w rows_decode
    ∙ ap ok (first_taking_unique rows r i w rows_conflict e l p)
