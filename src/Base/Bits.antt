-- ===== src/Base/Bits.antt =====
-- `&` with a low mask, `|` of disjoint fields and the lowest digit of the bit operations, as
-- arithmetic, at every width.
mod Step
pub use Step.*
use Prim.Native.Nat.{ℕ, zero, suc, ◌+◌, ◌-◌, ◌*◌, ◌/◌, ◌%◌, ◌^◌, ◌<◌, ◌≤◌, bit_and, bit_or, bit_xor}
use mathlib.Core.Path.{◌≡◌, refl, ap}
use native.Mathlib.Nat.{pow-suc, one-le-pow}
use native.Mathlib.Omega.{arith}

zero_right : (bound a : ℕ) → a ≤ bound → (bit_or a 0 ≡ a) × (bit_and a 0 ≡ 0)
zero_right bound zero small = (refl, refl)
zero_right zero (suc a) small = absurd (omega arith)
zero_right (suc bound) (suc a) small =
    let (joined, masked) = zero_right bound (suc a / 2) (omega arith) in
    (omega (arith, bit_or_step (suc a) 0, joined), omega (arith, bit_and_step (suc a) 0, masked))

pub bit_or-zero : (a : ℕ) → bit_or a 0 ≡ a
bit_or-zero a = (zero_right a a (omega arith)).0

pub bit_and-zero : (a : ℕ) → bit_and a 0 ≡ 0
bit_and-zero a = (zero_right a a (omega arith)).1

pub mul-two-pow-suc : (high k : ℕ) → high * 2 ^ suc k ≡ 2 * (high * 2 ^ k)
mul-two-pow-suc high k = omega (arith, ap (λ (power : ℕ). high * power) (pow-suc 2 k))

-- A field of `k` bits below another one: both operations see them apart.
fields_or-and :
    (k high low : ℕ)
    → low < 2 ^ k
    → (bit_or (high * 2 ^ k) low ≡ high * 2 ^ k + low)
      × (bit_and (high * 2 ^ k + low) (2 ^ k - 1) ≡ low)
fields_or-and zero high low small =
    (ground (arith, bit_or-zero high), rw bit_and-zero (omega arith))
fields_or-and (suc k) high low small =
    let (joined, masked) = fields_or-and k high (low / 2) (omega (arith, pow-suc 2 k)) in
    (
      ground (arith, bit_or_step (high * 2 ^ suc k) low, mul-two-pow-suc high k, joined),
      ground (
        arith,
        bit_and_step (high * 2 ^ suc k + low) (2 ^ suc k - 1),
        mul-two-pow-suc high k,
        pow-suc 2 k,
        masked,
      ),
    )

-- `(q << k) | r` is a sum when `r` fits `k` bits.
pub bit_or_fields : (k high low : ℕ) → low < 2 ^ k → bit_or (high * 2 ^ k) low ≡ high * 2 ^ k + low
bit_or_fields k high low small = (fields_or-and k high low small).0

-- A mask of `k` low bits is the remainder by `2 ^ k`.
pub bit_and_mask : (k a : ℕ) → bit_and a (2 ^ k - 1) ≡ a % 2 ^ k
bit_and_mask k a = ground (
  arith,
  one-le-pow k 2,
  (fields_or-and k (a / 2 ^ k) (a % 2 ^ k) (omega (arith, one-le-pow k 2))).1,
)

-- The operations keep within a width.
pub bit_and-lt : (k a b : ℕ) → a < 2 ^ k → bit_and a b < 2 ^ k
bit_and-lt zero zero b h = omega (arith, bit_and_step zero b, bit_and-zero_left b)
bit_and-lt zero (suc a) b h = absurd (omega arith)
bit_and-lt (suc k) a b h = omega (
  arith,
  pow-suc 2 k,
  bit_and_step a b,
  bit_and-lt k (a / 2) (b / 2) (omega (arith, pow-suc 2 k)),
)

pub bit_or-lt : (k a b : ℕ) → a < 2 ^ k → b < 2 ^ k → bit_or a b < 2 ^ k
bit_or-lt zero zero zero h h' = omega arith
bit_or-lt zero zero (suc b) h h' = absurd (omega arith)
bit_or-lt zero (suc a) b h h' = absurd (omega arith)
bit_or-lt (suc k) a b h h' = omega (
  arith,
  pow-suc 2 k,
  bit_or_step a b,
  bit_or-lt k (a / 2) (b / 2) (omega (arith, pow-suc 2 k)) (omega (arith, pow-suc 2 k)),
)

pub bit_xor-lt : (k a b : ℕ) → a < 2 ^ k → b < 2 ^ k → bit_xor a b < 2 ^ k
bit_xor-lt zero zero zero h h' = omega arith
bit_xor-lt zero zero (suc b) h h' = absurd (omega arith)
bit_xor-lt zero (suc a) b h h' = absurd (omega arith)
bit_xor-lt (suc k) a b h h' = omega (
  arith,
  pow-suc 2 k,
  bit_xor_step a b,
  bit_xor-lt k (a / 2) (b / 2) (omega (arith, pow-suc 2 k)) (omega (arith, pow-suc 2 k)),
)
