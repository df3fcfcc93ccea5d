-- ===== src/Riscv/Pattern/Conflict.antt =====
-- Two patterns that write different bits in some place have no word in common.
use my_oscpu.Base.{
  ℕ, ◌%◌, ◌/◌, ◌≡◌, arith, Bool, true, false, ◌&&◌, ◌||◌, not, ◌==◌, List, [], ◌∷◌, Bool-cases, inl,
  inr, &&-eq_true, ||-resolve_left,
}
use my_oscpu.Riscv.Pattern.Sound.{fits_char, fits}

abbrev pub differs : ℕ → ℕ → Bool
differs c d = not (c == b'?') && not (d == b'?') && not (c == d)

unfoldable pub conflict : List ℕ → List ℕ → Bool
conflict [] ds = false
conflict (c ∷ cs) [] = false
conflict (c ∷ cs) (d ∷ ds) = differs c d || conflict cs ds

fits_char-differs :
    (c d bit : ℕ) → differs c d ≡ true → fits_char c bit ≡ true → fits_char d bit ≡ true → ⊥
fits_char-differs c d bit h p q = ground arith

pub fits-conflict :
    (p q : List ℕ) (w : ℕ) → conflict p q ≡ true → fits p w ≡ true → fits q w ≡ true → ⊥
unfolding conflict
fits-conflict [] q w h f g = cc
fits-conflict (c ∷ cs) [] w h f g = cc
fits-conflict (c ∷ cs) (d ∷ ds) w h f g =
    let (f0, f1) = &&-eq_true (fits_char c (w % 2)) (fits cs (w / 2)) f in
    let (g0, g1) = &&-eq_true (fits_char d (w % 2)) (fits ds (w / 2)) g in
    elim (Bool-cases (differs c d)) [
      | inl here ↦ fits_char-differs c d (w % 2) here f0 g0
      | inr later ↦
          fits-conflict cs ds (w / 2) (||-resolve_left (differs c d) (conflict cs ds) h later) f1 g1
    ]
