-- ===== src/Sdb/Watchpoint/Delete.antt =====
-- `delete_wp` on the two lists of the pool.
use my_oscpu.Base.{
  ℕ, zero, suc, ◌+◌, ◌<◌, ◌≡◌, ◌≢◌, refl, sym, ap, ◌∙◌, arith, true, false, Option, none, some,
  List, [], ◌∷◌, ◌++◌, All, ltb, length, length-append, ==_false, ==_refl, ok,
}
use my_oscpu.Sdb.Watchpoint.{
  Pool, delete_wp, delete_loop, free_wp, find_prev, unlink, points_to, set_next, set_expression,
}
use my_oscpu.Sdb.Watchpoint.Chain.{
  Chain, NotIn, Distinct, put, put_same, Chain-start, Chain-put, last_of, Chain-unlink, NotIn-drop,
}
use my_oscpu.Sdb.Watchpoint.Lists.{IsValid}

-- A watchpoint that no chain has is not found in front of one of it.
points_to_other :
    (next : ℕ → Option ℕ) (q : Option ℕ) (d : ℕ) (xs : List ℕ)
    → Chain next q xs
    → NotIn d xs
    → points_to q d ≡ false
points_to_other next q d [] c n = rw c
points_to_other next q d (x ∷ xs) c n = rw c.0 (==_false x d n.0)

find_prev-none :
    (fuel d : ℕ) (p : Pool) (q : Option ℕ) (xs : List ℕ)
    → Chain p.next q xs
    → NotIn d xs
    → length xs < fuel
    → find_prev fuel d p q ≡ ok none
unfolding find_prev
find_prev-none zero d p q xs c n l = absurd (omega arith)
find_prev-none (suc fuel) d p q [] c n l = rw c
find_prev-none (suc fuel) d p q (x ∷ xs) c n l =
    rw (c.0, points_to_other p.next (p.next x) d xs c.1 n.1)
      (find_prev-none fuel d p (p.next x) xs c.1 n.1 (omega arith))

-- What `free_wp` leaves when the watchpoint is on no list.
abbrev freed : ℕ → Pool → Pool
freed d p = record (set_next (set_expression p d none) d p.free_) { free_ = some d }

free_wp_unlinked :
    (d : ℕ) (p : Pool) (hs : List ℕ)
    → Chain p.next p.head hs
    → NotIn d hs
    → length hs < 33
    → free_wp 33 d p ≡ ok (freed d p)
unfolding free_wp
free_wp_unlinked d p hs c n l =
    rw (points_to_other p.next p.head d hs c n, find_prev-none 33 d p p.head hs c n l)

-- The watchpoint in front of the one behind `xs`.
abbrev last_opt : Option ℕ → List ℕ → Option ℕ
last_opt prev [] = prev
last_opt prev (x ∷ xs) = some (last_of x xs)

last_opt_behind : (x : ℕ) (xs : List ℕ) → last_opt (some x) xs ≡ some (last_of x xs)
last_opt_behind x [] = refl
last_opt_behind x (y ∷ ys) = refl

delete_loop_finds :
    (fuel d : ℕ) (p : Pool) (prev wp : Option ℕ) (xs ys : List ℕ)
    → Chain p.next wp (xs ++ d ∷ ys)
    → NotIn d xs
    → length xs < fuel
    → delete_loop fuel d prev wp p ≡ free_wp 33 d (unlink (last_opt prev xs) d p)
unfolding delete_loop
delete_loop_finds zero d p prev wp xs ys c n l = absurd (omega arith)
delete_loop_finds (suc fuel) d p prev wp [] ys c n l = rw (c.0, ==_refl d)
delete_loop_finds (suc fuel) d p prev wp (x ∷ xs) ys c n l =
    rw (c.0, ==_false x d n.0)
      (delete_loop_finds fuel d p (some x) (p.next x) xs ys c.1 n.1 (omega arith)
        ∙ ap (λ q. free_wp 33 d (unlink q d p)) (last_opt_behind x xs))

-- Of a list without repetition: what stands before, behind and with an element.
Distinct-split :
    (d : ℕ) (xs ys : List ℕ)
    → Distinct (xs ++ d ∷ ys)
    → NotIn d xs × NotIn d (xs ++ ys) × Distinct (xs ++ ys)
Distinct-split d [] ys h = (tt, h.0, h.1)
Distinct-split d (x ∷ xs) ys h =
    let (before, all, rest) = Distinct-split d xs ys h.1 in
    let other : x ≢ d = λ e. NotIn-has x d xs ys h.0 (sym e) in
    ((other, before), (other, all), (NotIn-drop x d xs ys h.0, rest))
  where
    NotIn-has : (x d : ℕ) (xs ys : List ℕ) → NotIn x (xs ++ d ∷ ys) → d ≢ x
    NotIn-has x d [] ys n = n.0
    NotIn-has x d (z ∷ xs) ys n = NotIn-has x d xs ys n.1

All-split :
    (P : ℕ → Type 0) (d : ℕ) (xs ys : List ℕ) → All P (xs ++ d ∷ ys) → P d × All P (xs ++ ys)
All-split P d [] ys a = (a.0, a.1)
All-split P d (x ∷ xs) ys a = let (here, rest) = All-split P d xs ys a.1 in (here, (a.0, rest))

All-last : (P : ℕ → Type 0) (x : ℕ) (xs ys : List ℕ) → All P (x ∷ xs ++ ys) → P (last_of x xs)
All-last P x [] ys a = a.0
All-last P x (y ∷ xs) ys a = All-last P y xs ys a.1

-- Both lists with `d` out of the first, and in neither.
unlink-Chain :
    (d : ℕ) (p : Pool) (xs ys fs : List ℕ)
    → IsValid p (xs ++ d ∷ ys) fs
    → Chain (unlink (last_opt none xs) d p).next (unlink (last_opt none xs) d p).head (xs ++ ys)
      × Chain (unlink (last_opt none xs) d p).next (unlink (last_opt none xs) d p).free_ fs
unlink-Chain d p [] ys fs v = (v.heads.1, v.frees)
unlink-Chain d p (x ∷ xs) ys fs v = (
  Chain-unlink p.next p.head x d xs ys v.distinct_heads v.heads,
  Chain-put p.next (last_of x xs) (p.next d) p.free_ fs
      (All-last (λ z. NotIn z fs) x xs (d ∷ ys) v.apart) v.frees,
)

-- `delete_wp` of a watchpoint in use takes it out of its list, wherever it stands, and puts it in front of
-- the free ones.
pub delete_wp-IsValid :
    (d : ℕ) (p : Pool) (xs ys fs : List ℕ)
    → d < 32
    → IsValid p (xs ++ d ∷ ys) fs
    → (p' : Pool) × (delete_wp d p ≡ ok p') × IsValid p' (xs ++ ys) (d ∷ fs)
unfolding delete_wp
delete_wp-IsValid d p xs ys fs l v =
    let q : Pool = unlink (last_opt none xs) d p in
    let (before, out, distinct) = Distinct-split d xs ys v.distinct_heads in
    let (out_free, apart) = All-split (λ z. NotIn z fs) d xs ys v.apart in
    let (heads, frees) = unlink-Chain d p xs ys fs v in
    let total : length (xs ++ ys) + suc (length fs) ≡ 32 = sizes.1 in
    (
      freed d q,
      rw (small) (
          delete_loop_finds 33 d p none p.head xs ys v.heads before sizes.0
          ∙ free_wp_unlinked d q (xs ++ ys) heads out (omega (arith, total))),
      record {
        heads = Chain-put q.next d q.free_ q.head (xs ++ ys) out heads;
        frees = (
          refl,
          Chain-start (put q.next d q.free_) fs (sym (put_same q.next d q.free_))
              (Chain-put q.next d q.free_ q.free_ fs out_free frees),
        );
        distinct_heads = distinct;
        distinct_frees = (out_free, v.distinct_frees);
        apart = beside (xs ++ ys) out apart;
        count = total;
      },
    )
  where
    small : ltb d 32 ≡ true
    small = ground (arith, l)

    sizes : (length xs < 33) × (length (xs ++ ys) + suc (length fs) ≡ 32)
    sizes = omega (arith, v.count, length-append xs ys, length-append xs (d ∷ ys))

    beside : (zs : List ℕ) → NotIn d zs → All (λ z. NotIn z fs) zs → All (λ z. NotIn z (d ∷ fs)) zs
    beside [] n a = tt
    beside (z ∷ zs) n a = ((λ e. n.0 (sym e), a.0), beside zs n.1 a.1)

delete_loop_misses :
    (fuel d : ℕ) (p : Pool) (prev wp : Option ℕ) (hs : List ℕ)
    → Chain p.next wp hs
    → NotIn d hs
    → length hs < fuel
    → delete_loop fuel d prev wp p ≡ ok p
unfolding delete_loop
delete_loop_misses zero d p prev wp hs c n l = absurd (omega arith)
delete_loop_misses (suc fuel) d p prev wp [] c n l = rw c
delete_loop_misses (suc fuel) d p prev wp (x ∷ hs) c n l =
    rw (c.0, ==_false x d n.0)
      (delete_loop_misses fuel d p (some x) (p.next x) hs c.1 n.1 (omega arith))

-- `delete_wp` of a watchpoint that is not in use changes nothing.
pub delete_wp_unused :
    (d : ℕ) (p : Pool) (hs fs : List ℕ)
    → d < 32
    → IsValid p hs fs
    → NotIn d hs
    → delete_wp d p ≡ ok p
unfolding delete_wp
delete_wp_unused d p hs fs l v n =
    rw (small d l) (delete_loop_misses 33 d p none p.head hs v.heads n (omega (arith, v.count)))
  where
    small : (d : ℕ) → d < 32 → ltb d 32 ≡ true
    small d l = ground (arith, l)
