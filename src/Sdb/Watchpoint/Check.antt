-- ===== src/Sdb/Watchpoint/Check.antt =====
-- `check_wp` of nemu/src/monitor/sdb/watchpoint.c, without the text it prints.
use my_oscpu.Base.{
  ℕ, zero, suc, ◌<◌, ◌≡◌, ◌≢◌, refl, sym, ap, ◌∙◌, inl, inr, arith, Bool, true, false, Bool-cases,
  ==_iff, ◌==◌, ==_refl, if◌then◌else◌, List, [], ◌∷◌, Option, none, some, length, All, Result, ok,
  err, panic, undefined, out_of_fuel, ◌>>=◌,
}
use my_oscpu.Config.{Config}
use my_oscpu.Riscv.Machine.{Machine, stop}
use my_oscpu.Sdb.Token.{Libc}
use my_oscpu.Sdb.Expr.{expr}
use my_oscpu.Sdb.Watchpoint.{Pool, set_value, nr_wp}
use my_oscpu.Sdb.Watchpoint.Chain.{Chain}
use my_oscpu.Sdb.Watchpoint.Lists.{IsValid}

module _ {D : Type 0} (cfg : Config) (c : Libc) where
  abbrev stop_run : Machine D → Machine D
  stop_run m = record m { nemu = record m.nemu { state = stop } }

  -- A new value is stored, and the run stops.
  unfoldable pub check_value : ℕ → Option ℕ → Pool → Machine D → Result (Pool × Machine D)
  check_value wp none p m = err (panic "assert(success)")
  check_value wp (some new_value) p m =
      if new_value == p.value wp then ok (p, m) else ok (set_value p wp new_value, stop_run m)

  -- `expr` of a NULL expression is undefined.
  unfoldable pub check_one : ℕ → Option (List ℕ) → Pool → Machine D → Result (Pool × Machine D)
  check_one wp none p m = err undefined
  check_one wp (some e) p m = do (v, m') ← expr cfg c e m; check_value wp v p m'

  unfoldable pub check_loop : ℕ → Option ℕ → Pool → Machine D → Result (Pool × Machine D)
  check_loop zero wp p m = err out_of_fuel
  check_loop (suc fuel) none p m = ok (p, m)
  check_loop (suc fuel) (some wp) p m =
      check_one wp (p.expression wp) p m >>= λ r. check_loop fuel (r.0.next wp) r.0 r.1

  unfoldable pub check_wp : Pool → Machine D → Result (Pool × Machine D)
  unfolding check_loop
  check_wp p m = check_loop (suc nr_wp) p.head p m

-- The values that are stored for the watchpoints of `hs` are those of `v`.
abbrev pub Stored : (ℕ → ℕ) → Pool → List ℕ → Type 0
Stored v p hs = All (λ wp. p.value wp ≡ v wp) hs

-- What a check of the watchpoints `hs`, whose expressions have the values `v`, makes of the pool `p` and of the flag
-- that the run has been stopped: the new values are stored, nothing else of the pool changes, and the flag is set
-- exactly if it was or a value differed.
pub record IsChecked (v : ℕ → ℕ) (hs : List ℕ) (p : Pool) (b : Bool) (p' : Pool) (b' : Bool)
    : Type 0 where
  pub stored : Stored v p' hs
  pub others : (i : ℕ) → All (λ wp. wp ≢ i) hs → p'.value i ≡ p.value i
  pub stays : (i : ℕ) → p.value i ≡ v i → p'.value i ≡ v i
  pub links :
      (p'.next ≡ p.next)
      × (p'.expression ≡ p.expression)
      × (p'.head ≡ p.head)
      × (p'.free_ ≡ p.free_)
  pub same : b ≡ false → Stored v p hs → b' ≡ false
  pub differs : b' ≡ false → (b ≡ false) × Stored v p hs

IsChecked-nil : (v : ℕ → ℕ) (p : Pool) (b : Bool) → IsChecked v [] p b p b
IsChecked-nil v p b = record {
  stored = tt;
  others = λ i a. refl;
  stays = λ i e. e;
  links = (refl, refl, refl, refl);
  same = λ e a. e;
  differs = λ e. (e, tt);
}

IsChecked-same :
    (v : ℕ → ℕ) (wp : ℕ) (hs : List ℕ) (p p' : Pool) (b b' : Bool)
    → v wp ≡ p.value wp
    → IsChecked v hs p b p' b'
    → IsChecked v (wp ∷ hs) p b p' b'
IsChecked-same v wp hs p p' b b' e r = record {
  stored = (r.stays wp (sym e), r.stored);
  others = λ i a. r.others i a.1;
  stays = r.stays;
  links = r.links;
  same = λ f a. r.same f a.1;
  differs = λ f. ((r.differs f).0, (sym e, (r.differs f).1));
}

IsChecked-differs :
    (v : ℕ → ℕ) (wp : ℕ) (hs : List ℕ) (p p' : Pool) (b b' : Bool)
    → v wp ≢ p.value wp
    → IsChecked v hs (set_value p wp (v wp)) true p' b'
    → IsChecked v (wp ∷ hs) p b p' b'
IsChecked-differs v wp hs p p' b b' n r = record {
  stored = (r.stays wp (rw (==_refl wp) refl), r.stored);
  others = λ i a. r.others i a.1 ∙ untouched p wp i (v wp) a.0;
  stays = λ i e. r.stays i (kept i e);
  links = r.links;
  same = λ f a. absurd (n (sym a.0));
  differs = λ f. absurd (true_not_false (r.differs f).0);
}
  where
    untouched : (p : Pool) (wp i x : ℕ) → wp ≢ i → (set_value p wp x).value i ≡ p.value i
    untouched p wp i x d = ground (arith, d)

    kept : (i : ℕ) → p.value i ≡ v i → (set_value p wp (v wp)).value i ≡ v i
    kept i e = elim (Bool-cases (i == wp)) [
      | inl here ↦ rw here (ap v (sym ((==_iff i wp).0 here)))
      | inr other ↦ rw other e
    ]

    true_not_false : true ≢ false
    true_not_false e = cc

module _ {D : Type 0} (cfg : Config) (c : Libc) where
  -- The machine, in which the run has been stopped or not.
  abbrev pub stopped_if : Bool → Machine D → Machine D
  stopped_if false m = m
  stopped_if true m = stop_run cfg c m

  stop_run-stopped_if :
      (b : Bool) (m : Machine D) → stop_run cfg c (stopped_if b m) ≡ stopped_if true m
  stop_run-stopped_if false m = refl
  stop_run-stopped_if true m = refl

  -- The expression of a watchpoint has the value `v` now, whether the run has been stopped or not, and reads nothing
  -- that changes the machine.
  abbrev pub HasValue : Pool → Machine D → (ℕ → ℕ) → ℕ → Type 0
  HasValue p m v wp =
      (e : List ℕ) × (p.expression wp ≡ some e)
      × ((b : Bool) → expr cfg c e (stopped_if b m) ≡ ok (some (v wp), stopped_if b m))

  check_one-HasValue :
      (wp : ℕ) (v : ℕ → ℕ) (p : Pool) (m : Machine D) (b : Bool)
      → HasValue p m v wp
      → check_one cfg c wp (p.expression wp) p (stopped_if b m)
        ≡ check_value cfg c wp (some (v wp)) p (stopped_if b m)
  unfolding check_one
  check_one-HasValue wp v p m b h = rw (h.1, h.2 b) refl

  check_loop-IsChecked :
      (fuel : ℕ) (q : Option ℕ) (v : ℕ → ℕ) (p : Pool) (m : Machine D) (b : Bool) (hs : List ℕ)
      → Chain p.next q hs
      → All (HasValue p m v) hs
      → length hs < fuel
      → (p' : Pool) × (b' : Bool) × (check_loop cfg c fuel q p (stopped_if b m)
          ≡ ok (p', stopped_if b' m))
        × IsChecked v hs p b p' b'
  unfolding check_loop check_value
  check_loop-IsChecked zero q v p m b hs ch u l = absurd (omega arith)
  check_loop-IsChecked (suc fuel) q v p m b [] ch u l = (p, b, rw ch, IsChecked-nil v p b)
  check_loop-IsChecked (suc fuel) q v p m b (wp ∷ hs) ch u l =
      elim (Bool-cases (v wp == p.value wp)) [
        | inl same ↦
            let (p', b', run, r) =
              check_loop-IsChecked fuel (p.next wp) v p m b hs ch.1 u.1 (omega arith) in
            (
              p',
              b',
              rw (ch.0, check_one-HasValue wp v p m b u.0, same) run,
              IsChecked-same v wp hs p p' b b' ((==_iff (v wp) (p.value wp)).0 same) r,
            )
        | inr other ↦
            let p1 : Pool = set_value p wp (v wp) in
            let (p', b', run, r) =
              check_loop-IsChecked fuel (p.next wp) v p1 m true hs ch.1 u.1 (omega arith) in
            (
              p',
              b',
              rw (ch.0, check_one-HasValue wp v p m b u.0, other, stop_run-stopped_if b m) run,
              IsChecked-differs v wp hs p p' b b' (λ e. ground (arith, other, e)) r,
            )
      ]

  -- `check_wp` where the expressions of all watchpoints in use have values `v`, the same whether the run has been
  -- stopped or not, and reading them changes nothing of the machine (as reading a device's register may): it stores
  -- these values, changes no value of another place and none of the links and expressions, and stops the run
  -- exactly if a stored value differed.
  pub check_wp-IsChecked :
      (p : Pool) (m : Machine D) (v : ℕ → ℕ) (hs fs : List ℕ)
      → IsValid p hs fs
      → All (HasValue p m v) hs
      → (p' : Pool) × (b' : Bool) × (check_wp cfg c p m ≡ ok (p', stopped_if b' m))
        × IsChecked v hs p false p' b'
  unfolding check_wp
  check_wp-IsChecked p m v hs fs i u =
      check_loop-IsChecked 33 p.head v p m false hs i.heads u (omega (arith, i.count))
