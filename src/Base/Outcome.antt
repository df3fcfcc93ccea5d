-- ===== src/Base/Outcome.antt =====
-- Outcomes of code that can stop the program. `panic` is a failed `Assert`, `assert` or `panic`
-- with its message, `undefined` is behaviour that C leaves undefined, and `out_of_fuel` belongs to
-- the model alone.
use Prim.Native.String.{String}
use mathlib.Core.Path.{◌≡◌, refl}
use mathlib.Core.Bool.{Bool, true, false}
use my_oscpu.Base.Tests.{if◌then◌else◌}

pub data Fault : Type 0 where
  panic : String → Fault
  undefined : Fault
  out_of_fuel : Fault

pub data Result {ℓ} (A : Type ℓ) : Type ℓ where
  ok : A → Result A
  err : Fault → Result A

abbrev pub guard : Bool → Fault → Result (Unit {0})
guard false fault = err fault
guard true fault = ok tt

infixl 5 ◌>>=◌ ◌>>◌
abbrev pub ◌>>=◌ {ℓ κ} : {A : Type ℓ} {B : Type κ} → Result A → (A → Result B) → Result B
err fault >>= next = err fault
ok x >>= next = next x

-- What a chain that succeeded came through.
pub >>=-eq-ok {ℓ κ} :
    {A : Type ℓ} {B : Type κ} (first : Result A) (next : A → Result B) {y : B}
    → (first >>= next) ≡ ok y
    → (x : A) × (first ≡ ok x) × (next x ≡ ok y)
>>=-eq-ok (err fault) next e = cc
>>=-eq-ok (ok x) next e = (x, refl, e)

abbrev pub ◌>>◌ {ℓ} : {B : Type ℓ} → Result (Unit {0}) → Result B → Result B
first >> next = first >>= λ done. next

-- The model's fuel was enough, and what a result satisfies if there is one.
abbrev pub Halts {ℓ} : {A : Type ℓ} → (A → Type 0) → Result A → Type 0
Halts P (ok a) = P a
Halts P (err out_of_fuel) = ⊥
Halts P (err (panic s)) = Unit
Halts P (err undefined) = Unit

pub Halts-bind {ℓ κ} :
    {A : Type ℓ} {B : Type κ} (P : A → Type 0) (Q : B → Type 0) (r : Result A) (f : A → Result B)
    → Halts P r
    → ((a : A) → P a → Halts Q (f a))
    → Halts Q (r >>= f)
Halts-bind P Q (ok a) f p h = h a p
Halts-bind P Q (err out_of_fuel) f p h = absurd p
Halts-bind P Q (err (panic s)) f p h = tt
Halts-bind P Q (err undefined) f p h = tt

pub Halts-if {ℓ} :
    {A : Type ℓ} (P : A → Type 0) (b : Bool) (x y : Result A)
    → Halts P x
    → Halts P y
    → Halts P (if b then x else y)
Halts-if P true x y h k = h
Halts-if P false x y h k = k

pub Halts-weaken {ℓ} :
    {A : Type ℓ} (P Q : A → Type 0) (r : Result A) → ((a : A) → P a → Q a) → Halts P r → Halts Q r
Halts-weaken P Q (ok a) h p = h a p
Halts-weaken P Q (err out_of_fuel) h p = p
Halts-weaken P Q (err (panic s)) h p = tt
Halts-weaken P Q (err undefined) h p = tt
