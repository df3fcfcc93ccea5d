-- ===== src/Memory/Bytes.antt =====
-- Byte arrays as functions from offsets, and little-endian access to them.
use native.Mathlib.Nat.{
  pow-suc, one-le-pow, div-add-mod, mod-lt, mod-eq_of_lt, add-mul-mod_self_left,
}
use my_oscpu.Base.{
  ℕ, zero, suc, ◌+◌, ◌*◌, ◌/◌, ◌%◌, ◌^◌, ◌≤◌, ◌<◌, ◌≡◌, ◌⊎◌, inl, refl, arith, ◌==◌, if◌then◌else◌,
  ◌∙◌, ap, ap₂, sym,
}

abbrev pub Bytes : Type 0
Bytes = ℕ → ℕ

abbrev pub IsBytes : Bytes → Type 0
IsBytes b = (i : ℕ) → b i < 256

abbrev pub store : Bytes → ℕ → ℕ → Bytes
store b o v i = if i == o then v % 256 else b i

pub store_self : (b : Bytes) (o v : ℕ) → store b o v o ≡ v % 256
store_self b o v = ground arith

-- The number in the `n` bytes from offset `o` on, lowest first.
unfoldable pub read_le : ℕ → Bytes → ℕ → ℕ
read_le zero b o = 0
read_le (suc n) b o = b o + 256 * read_le n b (o + 1)

unfoldable pub write_le : ℕ → Bytes → ℕ → ℕ → Bytes
write_le zero b o v = b
write_le (suc n) b o v = write_le n (store b o v) (o + 1) (v / 256)

pub write_le_frame :
    (n : ℕ) (b : Bytes) (o v i : ℕ) → (i < o) ⊎ (o + n ≤ i) → write_le n b o v i ≡ b i
unfolding write_le
write_le_frame zero b o v i h = refl
write_le_frame (suc n) b o v i h =
    ground (arith, write_le_frame n (store b o v) (o + 1) (v / 256) i)

pub write_le-IsBytes : (n : ℕ) (b : Bytes) (o v : ℕ) → IsBytes b → IsBytes (write_le n b o v)
unfolding write_le
write_le-IsBytes zero b o v h i = h i
write_le-IsBytes (suc n) b o v h i =
    write_le-IsBytes n (store b o v) (o + 1) (v / 256) (λ j. ground (arith, h j)) i

-- Reading depends on the bytes read alone.
pub read_le_ext :
    (n : ℕ) (b c : Bytes) (o : ℕ)
    → ((i : ℕ) → o ≤ i → i < o + n → b i ≡ c i)
    → read_le n b o ≡ read_le n c o
unfolding read_le
read_le_ext zero b c o h = refl
read_le_ext (suc n) b c o h = omega (
  arith,
  h o (omega arith) (omega arith),
  read_le_ext n b c (o + 1) (λ i p q. h i (omega arith) (omega arith)),
)

pub read_le-lt : (n : ℕ) (b : Bytes) (o : ℕ) → IsBytes b → read_le n b o < 256 ^ n
unfolding read_le
read_le-lt zero b o h = omega arith
read_le-lt (suc n) b o h = omega (arith, h o, read_le-lt n b (o + 1) h, pow-suc 256 n)

mod_split : (v p : ℕ) → 0 < p → v % 256 + 256 * (v / 256 % p) ≡ v % (256 * p)
mod_split v p h =
    let m : ℕ = v / 256 % p in
    let k : ℕ = v / 256 / p in
    let x : ℕ = v % 256 + 256 * m in
    let whole : v ≡ x + 256 * p * k = grind (arith, div-add-mod (v / 256) p) in
    let small : x < 256 * p = grind (arith, mod-lt (v / 256) h) in
    sym (ap (λ t. t % (256 * p)) whole ∙ add-mul-mod_self_left x (256 * p) k ∙ mod-eq_of_lt small)

-- What was written is read back, as far as it fits.
pub read_le-write_le : (n : ℕ) (b : Bytes) (o v : ℕ) → read_le n (write_le n b o v) o ≡ v % 256 ^ n
unfolding read_le write_le
read_le-write_le zero b o v = omega arith
read_le-write_le (suc n) b o v =
    let c = store b o v in
    let low : write_le n c (o + 1) (v / 256) o ≡ v % 256 =
      write_le_frame n c (o + 1) (v / 256) o (inl (omega arith)) ∙ store_self b o v in
    ap₂ (λ x y. x + 256 * y) low (read_le-write_le n c (o + 1) (v / 256))
    ∙ mod_split v (256 ^ n) (one-le-pow n 256 (omega arith))
    ∙ ap (λ t. v % t) (omega (arith, pow-suc 256 n))
