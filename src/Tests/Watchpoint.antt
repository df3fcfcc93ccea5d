-- ===== src/Tests/Watchpoint.antt =====
-- The pool of watchpoints behind `init_wp_pool` and two calls of `add_wp`.
use my_oscpu.Base.{◌≡◌, subst, sym, ap, ◌∙◌, ◌>>=◌, arith, none, [], ◌∷◌, Result, ok, err}
use my_oscpu.Sdb.Watchpoint.Delete.{delete_wp-IsValid}
use my_oscpu.Sdb.Watchpoint.{Pool, init_wp_pool, add_wp, delete_wp}
use my_oscpu.Sdb.Watchpoint.Lists.{IsValid, init_wp_pool-IsValid, count_from, add_wp-IsValid}

abbrev pub zeroed : Pool
zeroed = record {
  next = λ i. none;
  value = λ i. 0;
  expression = λ i. none;
  head = none;
  free_ = none;
}

abbrev pub pool : Pool
pool = init_wp_pool zeroed

init_wp_pool-IsValid_example : IsValid pool [] (count_from 0 32)
init_wp_pool-IsValid_example = init_wp_pool-IsValid zeroed

add_wp-IsValid_example :
    (p : Pool) × (add_wp (36 ∷ []) 7 pool ≡ ok p) × IsValid p (0 ∷ []) (count_from 1 31)
add_wp-IsValid_example =
    let (p, run, valid, at, value, rest) =
      add_wp-IsValid (36 ∷ []) 7 0 pool [] (count_from 1 31) (init_wp_pool-IsValid zeroed) in
    (p, run, valid)

abbrev pool_of : Result Pool → Pool
pool_of (ok p) = p
pool_of (err f) = zeroed

-- The pool with watchpoints 1 and 0 in use.
abbrev used : Pool
used = pool_of (add_wp (36 ∷ []) 7 pool >>= λ p. add_wp (37 ∷ []) 8 p)

used-IsValid : IsValid used (1 ∷ 0 ∷ []) (count_from 2 30)
used-IsValid =
    let (p, run, valid, at, value, rest) =
      add_wp-IsValid (36 ∷ []) 7 0 pool [] (count_from 1 31) (init_wp_pool-IsValid zeroed) in
    let (q, run', valid', at', value', rest') =
      add_wp-IsValid (37 ∷ []) 8 1 p (0 ∷ []) (count_from 2 30) valid in
    let both : (add_wp (36 ∷ []) 7 pool >>= λ p. add_wp (37 ∷ []) 8 p) ≡ ok q =
      ap (λ r. r >>= λ p. add_wp (37 ∷ []) 8 p) run ∙ run' in
    subst (λ u. IsValid u (1 ∷ 0 ∷ []) (count_from 2 30)) (sym (ap pool_of both)) valid'

delete_wp-IsValid_example :
    (p : Pool) × (delete_wp 0 used ≡ ok p) × IsValid p (1 ∷ []) (0 ∷ count_from 2 30)
delete_wp-IsValid_example =
    delete_wp-IsValid 0 used (1 ∷ []) [] (count_from 2 30) (omega arith) used-IsValid
