-- ===== src/Device/Table.antt =====
-- The table of memory-mapped regions and the arena (nemu/src/device/io): regions that were added never
-- overlap, so an address has at most one device.
use Prim.Native.String.{String}
use my_oscpu.Base.{
  subst, sym, ℕ, zero, suc, ◌+◌, ◌-◌, ◌%◌, ◌^◌, ◌≤◌, ◌<◌, ◌≡◌, ◌⊎◌, ◌↔◌, refl, inl, inr, Bool-cases,
  if◌then◌else◌, ap, arith, true, false, Option, none, some, List, [], ◌∷◌, ◌++◌, All, length,
  get_elem?, length-append, ok, sub32, add32,
}
use my_oscpu.Config.{Config}
use my_oscpu.Memory.Range.{in_pmem}
use my_oscpu.Device.Map.{Callback, IoMap, nr_map, find_map, map_inside, new_space, io_space_max}
use my_oscpu.Device.Mmio.{overlaps_any, new_map, add_mmio_map}

module _ {D : Type 0} where
  abbrev pub Apart : IoMap D → IoMap D → Type 0
  Apart m n = (m.high < n.low) ⊎ (n.high < m.low)

  abbrev pub ApartFrom : List (IoMap D) → IoMap D → Type 0
  ApartFrom ms n = All (λ m. Apart m n) ms

  -- The regions are not empty and pairwise apart.
  abbrev pub Disjoint : List (IoMap D) → Type 0
  Disjoint [] = Unit {0}
  Disjoint (m ∷ ms) = (m.low ≤ m.high) × All (λ n. Apart m n) ms × Disjoint ms

  apart_of_no_overlap :
      (ms : List (IoMap D)) (n : IoMap D) → overlaps_any ms n.low n.high ≡ false → ApartFrom ms n
  unfolding overlaps_any
  apart_of_no_overlap [] n h = tt
  apart_of_no_overlap (m ∷ ms) n h = (ground arith, apart_of_no_overlap ms n (ground arith))

  All-snoc :
      (P : IoMap D → Type 0) (ms : List (IoMap D)) (n : IoMap D)
      → All P ms
      → P n
      → All P (ms ++ n ∷ [])
  All-snoc P [] n h p = (p, tt)
  All-snoc P (m ∷ ms) n h p = (h.0, All-snoc P ms n h.1 p)

  Disjoint-snoc :
      (ms : List (IoMap D)) (n : IoMap D)
      → n.low ≤ n.high
      → Disjoint ms
      → ApartFrom ms n
      → Disjoint (ms ++ n ∷ [])
  Disjoint-snoc [] n h d a = (h, tt, tt)
  Disjoint-snoc (m ∷ ms) n h d a =
      (d.0, All-snoc (λ k. Apart m k) ms n d.1 a.0, Disjoint-snoc ms n h d.2 a.1)

  add_mmio_map-inv :
      (cfg : Config) (maps : List (IoMap D)) {maps' : List (IoMap D)} (addr space len : ℕ)
      (callback : Option (Callback D)) (name : String)
      → add_mmio_map cfg name addr space len callback maps ≡ ok maps'
      → (maps' ≡ maps ++ new_map name addr space len callback ∷ [])
        × (length maps < nr_map)
        × (in_pmem cfg addr ≡ false)
        × (in_pmem cfg (sub32 (add32 addr len) 1) ≡ false)
        × (overlaps_any maps addr (sub32 (add32 addr len) 1) ≡ false)
  unfolding add_mmio_map
  add_mmio_map-inv cfg maps addr space len callback name e = ground arith

  -- `add_mmio_map` of a region of at least one byte that ends within 32 bits keeps the table's
  -- regions disjoint, keeps it within NR_MAP entries, and appends exactly that region, whose first
  -- and last byte are not in physical memory.
  pub add_mmio_map-Disjoint :
      (cfg : Config) (maps : List (IoMap D)) {maps' : List (IoMap D)} (addr space len : ℕ)
      (callback : Option (Callback D)) (name : String)
      → Disjoint maps
      → 1 ≤ len
      → addr + len ≤ 2 ^ 32
      → add_mmio_map cfg name addr space len callback maps ≡ ok maps'
      → Disjoint maps'
        × (length maps' ≤ nr_map)
        × (maps' ≡ maps ++ new_map name addr space len callback ∷ [])
        × (in_pmem cfg addr ≡ false)
        × (in_pmem cfg (addr + len - 1) ≡ false)
  add_mmio_map-Disjoint cfg maps addr space len callback name d h w e =
      let m = new_map name addr space len callback in
      let i = add_mmio_map-inv cfg maps addr space len callback name e in
      let high : sub32 (add32 addr len) 1 ≡ addr + len - 1 = omega arith in
      (
        subst Disjoint (sym i.0)
            (Disjoint-snoc maps m (omega arith) d (apart_of_no_overlap maps m i.4)),
        omega (arith, ap length i.0, length-append maps (m ∷ []), i.1),
        i.0,
        i.2,
        subst (λ a. in_pmem cfg a ≡ false) high i.3,
      )

  get-ApartFrom :
      (ms : List (IoMap D)) (m n : IoMap D) (i : ℕ)
      → All (λ k. Apart m k) ms
      → get_elem? ms i ≡ some n
      → Apart m n
  get-ApartFrom [] m n i a e = cc
  get-ApartFrom (k ∷ ms) m n zero a e = ground arith
  get-ApartFrom (k ∷ ms) m n (suc i) a e = get-ApartFrom ms m n i a.1 e

  find_map-inside :
      (ms : List (IoMap D)) {m : IoMap D} (addr : ℕ)
      → find_map ms addr ≡ some m
      → map_inside m addr ≡ true
  unfolding find_map
  find_map-inside [] addr e = cc
  find_map-inside (k ∷ ms) {m} addr e = elim (Bool-cases (map_inside k addr)) [
    | inl here ↦ ground (arith, here, e)
    | inr on ↦
        find_map-inside ms addr
          (subst (λ b. (if b then some k else find_map ms addr) ≡ some m) on e)
  ]

  -- The region that the search finds holds the address; if it finds none, no region does.
  find_map_complete :
      (ms : List (IoMap D)) (addr : ℕ)
      → (find_map ms addr ≡ none) ↔ All (λ k. map_inside k addr ≡ false) ms
  unfolding find_map
  find_map_complete [] addr = ((λ e. tt), (λ a. refl))
  find_map_complete (k ∷ ms) addr = elim (Bool-cases (map_inside k addr)) [
    | inl here ↦ rw here ((λ e. cc), (λ a. ground (arith, a.0)))
    | inr on ↦
        rw on
          ((λ e. (refl, (find_map_complete ms addr).0 e)), (λ a. (find_map_complete ms addr).1 a.1))
  ]

  find_map_owner :
      (ms : List (IoMap D)) (m : IoMap D) (i addr : ℕ)
      → Disjoint ms
      → get_elem? ms i ≡ some m
      → map_inside m addr ≡ true
      → find_map ms addr ≡ some m
  unfolding find_map
  find_map_owner [] m i addr d e h = cc
  find_map_owner (k ∷ ms) m zero addr d e h = ground arith
  find_map_owner (k ∷ ms) m (suc i) addr d e h =
      ground (arith, find_map_owner ms m i addr d.2 e h, get-ApartFrom ms k m i d.1 e)

  -- The address is not one of the region's.
  abbrev pub Outside : ℕ → IoMap D → Type 0
  Outside addr m = (addr < m.low) ⊎ (m.high < addr)

  AllOutside :
      (ms : List (IoMap D)) (addr : ℕ)
      → All (λ k. map_inside k addr ≡ false) ms ↔ All (Outside addr) ms
  AllOutside [] addr = ((λ a. tt), (λ a. tt))
  AllOutside (k ∷ ms) addr = (
    λ a. (ground (arith, a.0), (AllOutside ms addr).0 a.1),
    λ a. (ground (arith, a.0), (AllOutside ms addr).1 a.1),
  )

  -- In a table of disjoint regions the search by address finds a registered region, wherever it stands in the
  -- table, exactly at the addresses from its first to its last, and finds none exactly at the addresses outside all
  -- regions.
  pub find_map-Disjoint :
      (ms : List (IoMap D)) (m : IoMap D) (i addr : ℕ)
      → Disjoint ms
      → get_elem? ms i ≡ some m
      → ((find_map ms addr ≡ some m) ↔ ((m.low ≤ addr) × (addr ≤ m.high)))
        × ((find_map ms addr ≡ none) ↔ All (Outside addr) ms)
  find_map-Disjoint ms m i addr d e =
      let (sound, complete) = find_map_complete ms addr in
      let (out, back) = AllOutside ms addr in
      (
        (
          λ found. ground (arith, find_map-inside ms addr found),
          λ h. find_map_owner ms m i addr d e (ground (arith, h)),
        ),
        ((λ n. out (sound n)), (λ a. complete (back a))),
      )

-- Two successive `new_space` calls give page-aligned blocks that do not meet and stay inside the
-- arena, when the first starts at a page and the sizes are positive as ints.
pub new_space-Disjoint :
    (p p' p'' size size' q q' : ℕ)
    → p % 4096 ≡ 0
    → size < 2 ^ 31
    → size' < 2 ^ 31
    → new_space p size ≡ ok (q, p')
    → new_space p' size' ≡ ok (q', p'')
    → (q + size ≤ q') × (q' + size' ≤ p'') × (p'' < io_space_max) × (q % 4096 ≡ 0) × (q' % 4096 ≡ 0)
unfolding new_space
new_space-Disjoint p p' p'' size size' q q' a l l' e f = ground arith
