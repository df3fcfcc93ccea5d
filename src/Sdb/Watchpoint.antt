-- ===== src/Sdb/Watchpoint.antt =====
-- nemu/src/monitor/sdb/watchpoint.c: the pool of watchpoints. A pointer into `wp_pool` is its index, which is
-- also its NO; the two lists share the `next` fields. An expression that was freed or never set is `none`.
pub mod Chain
pub mod Lists
pub mod Delete
pub mod Check
pub mod Keeps
use my_oscpu.Base.{
  ℕ, zero, suc, ◌+◌, ◌-◌, Bool, true, false, Option, none, some, List, not, ◌==◌, ltb,
  if◌then◌else◌, Result, ok, err, panic, out_of_fuel, ◌>>=◌, ◌>>◌, guard,
}
use my_oscpu.Riscv.Machine.{update}

abbrev pub nr_wp : ℕ
nr_wp = 32

pub record Pool : Type 0 where
  pub next : ℕ → Option ℕ
  pub value : ℕ → ℕ
  pub expression : ℕ → Option (List ℕ)
  pub head : Option ℕ
  pub free_ : Option ℕ

abbrev pub set_next : Pool → ℕ → Option ℕ → Pool
set_next p i x = record p { next = λ j. if j == i then x else p.next j }

abbrev pub set_expression : Pool → ℕ → Option (List ℕ) → Pool
set_expression p i x = record p { expression = λ j. if j == i then x else p.expression j }

abbrev pub set_value : Pool → ℕ → ℕ → Pool
set_value p i x = record p { value = update p.value i x }

-- `init_wp_pool`.
unfoldable pub init_wp_pool : Pool → Pool
init_wp_pool p = record p {
  next = λ i. if i == nr_wp - 1 then none else some (i + 1);
  head = none;
  free_ = some 0;
}

unfoldable pub new_wp_at : Option ℕ → Pool → Result (ℕ × Pool)
new_wp_at none p = err (panic "No idle watchpoints in pool")
new_wp_at (some wp) p = ok (wp, record (set_next p wp p.head) { head = some wp; free_ = p.next wp })

unfoldable pub new_wp : Pool → Result (ℕ × Pool)
unfolding new_wp_at
new_wp p = new_wp_at p.free_ p

-- `p == q`, of a pointer that may be NULL and one that is not.
abbrev pub points_to : Option ℕ → ℕ → Bool
points_to none wp = false
points_to (some p) wp = p == wp

-- The loop of `free_wp`: the watchpoint in front of `wp`, if there is one.
unfoldable pub find_prev : ℕ → ℕ → Pool → Option ℕ → Result (Option ℕ)
find_prev zero wp p prev = err out_of_fuel
find_prev (suc fuel) wp p none = ok none
find_prev (suc fuel) wp p (some prev) =
    let rest = find_prev fuel wp p (p.next prev) in
    if points_to (p.next prev) wp then ok (some prev) else rest

abbrev pub skip : Pool → ℕ → Option ℕ → Pool
skip p wp none = p
skip p wp (some prev) = set_next p prev (p.next wp)

-- `wp` taken off the list of `head`, if it is there.
unfoldable pub remove_wp : ℕ → ℕ → Pool → Result Pool
remove_wp fuel wp p =
    let walked = find_prev fuel wp p p.head >>= λ prev. ok (skip p wp prev) in
    if points_to p.head wp then ok (record p { head = p.next wp }) else walked

unfoldable pub free_wp : ℕ → ℕ → Pool → Result Pool
unfolding remove_wp
free_wp fuel wp p = do
  q ← remove_wp fuel wp p
  let q' = set_expression q wp none
  ok (record (set_next q' wp q'.free_) { free_ = some wp })

unfoldable pub add_wp : List ℕ → ℕ → Pool → Result Pool
add_wp expr val p = do (wp, q) ← new_wp p; ok (set_value (set_expression q wp (some expr)) wp val)

-- `wp` taken out behind `prev`, or at the head.
abbrev pub unlink : Option ℕ → ℕ → Pool → Pool
unlink none wp p = record p { head = p.next wp }
unlink (some prev) wp p = set_next p prev (p.next wp)

-- The loop of `delete_wp`, of a number that is not negative.
unfoldable pub delete_loop : ℕ → ℕ → Option ℕ → Option ℕ → Pool → Result Pool
delete_loop zero n prev wp p = err out_of_fuel
delete_loop (suc fuel) n prev none p = ok p
delete_loop (suc fuel) n prev (some wp) p =
    let rest = delete_loop fuel n (some wp) (p.next wp) p in
    if wp == n then free_wp (suc nr_wp) wp (unlink prev wp p) else rest

unfoldable pub delete_wp : ℕ → Pool → Result Pool
unfolding delete_loop
delete_wp n p =
    guard (ltb n nr_wp) (panic "Invalid watchpoint No") >> delete_loop (suc nr_wp) n none p.head p
