-- ===== src/Sdb/Watchpoint/Lists.antt =====
-- The two lists of the pool at `init_wp_pool` and under `add_wp`: every watchpoint stands in exactly one.
use my_oscpu.Base.{
  ℕ, zero, suc, ◌+◌, ◌<◌, ◌≡◌, ◌≢◌, refl, sym, arith, none, some, List, [], ◌∷◌, All, length,
  ==_false, ==_refl, ok, err, panic,
}
use my_oscpu.Sdb.Watchpoint.{
  Pool, nr_wp, init_wp_pool, new_wp, add_wp, set_next, set_expression, set_value,
}
use my_oscpu.Sdb.Watchpoint.Chain.{Chain, NotIn, Distinct, put, put_same, Chain-start, Chain-put}

-- `hs` is the list of `head` and `fs` that of `free_`; together they have the NR_WP watchpoints, none of
-- them twice.
pub record IsValid (p : Pool) (hs fs : List ℕ) : Type 0 where
  pub heads : Chain p.next p.head hs
  pub frees : Chain p.next p.free_ fs
  pub distinct_heads : Distinct hs
  pub distinct_frees : Distinct fs
  pub apart : All (λ x. NotIn x fs) hs
  pub count : length hs + length fs ≡ nr_wp

All-map : {P Q : ℕ → Type 0} (xs : List ℕ) → ((x : ℕ) → P x → Q x) → All P xs → All Q xs
All-map [] f a = tt
All-map (x ∷ xs) f a = (f x a.0, All-map xs f a.1)

-- `add_wp` takes the first free watchpoint, gives it the expression and its value, and puts it in front
-- of the others, which keep theirs.
pub add_wp-IsValid :
    (expr : List ℕ) (val f : ℕ) (p : Pool) (hs fs : List ℕ)
    → IsValid p hs (f ∷ fs)
    → (p' : Pool) × (add_wp expr val p ≡ ok p')
      × IsValid p' (f ∷ hs) fs
      × (p'.expression f ≡ some expr)
      × (p'.value f ≡ val)
      × ((i : ℕ) → i ≢ f → (p'.expression i ≡ p.expression i) × (p'.value i ≡ p.value i))
unfolding add_wp new_wp
add_wp-IsValid expr val f p hs fs v =
    let fresh : NotIn f hs = All-map hs (λ x n e. n.0 (sym e)) v.apart in
    (
      set_value
          (set_expression (record (set_next p f p.head) { head = some f; free_ = p.next f }) f
            (some expr))
          f val,
      rw v.frees.0,
      record {
        heads = (
          refl,
          Chain-start (put p.next f p.head) hs (sym (put_same p.next f p.head))
              (Chain-put p.next f p.head p.head hs fresh v.heads),
        );
        frees = Chain-put p.next f p.head (p.next f) fs v.distinct_frees.0 v.frees.1;
        distinct_heads = (fresh, v.distinct_heads);
        distinct_frees = v.distinct_frees.1;
        apart = (v.distinct_frees.0, All-map hs (λ x n. n.1) v.apart);
        count = omega (arith, v.count);
      },
      rw (==_refl f),
      rw (==_refl f),
      λ i h. (rw (==_false i f h), rw (==_false i f h)),
    )

-- With no free watchpoint, `add_wp` fails.
pub add_wp_full :
    (expr : List ℕ) (val : ℕ) (p : Pool) (hs : List ℕ)
    → IsValid p hs []
    → add_wp expr val p ≡ err (panic "No idle watchpoints in pool")
unfolding add_wp new_wp
add_wp_full expr val p hs v = rw v.frees

-- The `n` numbers from `k` on.
abbrev pub count_from : ℕ → ℕ → List ℕ
count_from k zero = []
count_from k (suc n) = k ∷ count_from (suc k) n

NotIn-count_from : (i k n : ℕ) → i < k → NotIn i (count_from k n)
NotIn-count_from i k zero h = tt
NotIn-count_from i k (suc n) h =
    (λ e. omega (arith, h, e), NotIn-count_from i (suc k) n (omega arith))

Distinct-count_from : (k n : ℕ) → Distinct (count_from k n)
Distinct-count_from k zero = tt
Distinct-count_from k (suc n) =
    (NotIn-count_from k (suc k) n (omega arith), Distinct-count_from (suc k) n)

module _ (p : Pool) where
  Chain-count_from :
      (k n : ℕ) → k + suc n ≡ 32 → Chain (init_wp_pool p).next (some k) (count_from k (suc n))
  unfolding init_wp_pool
  Chain-count_from k zero h = (refl, ends k (omega arith))
    where
      ends : (k : ℕ) → k ≡ 31 → (init_wp_pool p).next k ≡ none
      ends k e = ground arith
  Chain-count_from k (suc n) h = (
    refl,
    Chain-start (init_wp_pool p).next (count_from (suc k) (suc n)) (sym (link k (omega arith)))
        (Chain-count_from (suc k) n (omega arith)),
  )
    where
      link : (k : ℕ) → k < 31 → (init_wp_pool p).next k ≡ some (suc k)
      link k l = ground arith

  -- `init_wp_pool` leaves no watchpoint in use and all of them free.
  pub init_wp_pool-IsValid : IsValid (init_wp_pool p) [] (count_from 0 32)
  unfolding init_wp_pool
  init_wp_pool-IsValid = record {
    heads = refl;
    frees = Chain-count_from 0 31 refl;
    distinct_heads = tt;
    distinct_frees = Distinct-count_from 0 32;
    apart = tt;
    count = refl;
  }
