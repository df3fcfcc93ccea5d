-- ===== src/Memory/Valid.antt =====
-- Bytes stay bytes and loads give words, whichever way an access goes (nemu/src/memory/paddr.c,
-- nemu/src/device/io).
use my_oscpu.Base.{
  ℕ, ◌+◌, ◌-◌, ◌^◌, ◌<◌, ◌≡◌, refl, Bool, true, false, Option, none, some, List, [], ◌∷◌, All,
  Result, ok, err, ◌>>=◌, ◌>>◌, guard, leb, ◌&&◌, if◌then◌else◌, Bool-cases, inl, inr,
}
use my_oscpu.Config.{Config}
use my_oscpu.Memory.Bytes.{IsBytes}
use my_oscpu.Memory.Host.{host_read, host_write, host_read-lt, host_write-IsBytes}
use my_oscpu.Memory.Range.{in_pmem, guest_to_host}
use my_oscpu.Memory.Paddr.{Memory, pmem_read, pmem_write, paddr_read, paddr_write}
use my_oscpu.Device.Map.{
  Io, Callback, IoMap, Bus, io_space_max, find_map, check_bound, invoke_callback, map_read,
  map_write, mmio_read, mmio_write, fetch_mmio_map, skip_on_hit,
}

-- What a result satisfies, if there is one.
abbrev pub Ensures {ℓ} : {A : Type ℓ} → (A → Type 0) → Result A → Type 0
Ensures P (ok a) = P a
Ensures P (err f) = Unit {0}

pub Ensures-of_eq {ℓ} :
    {A : Type ℓ} (P : A → Type 0) (r : Result A) → ((a : A) → r ≡ ok a → P a) → Ensures P r
Ensures-of_eq P (ok a) h = h a refl
Ensures-of_eq P (err f) h = tt

-- Where nothing is claimed of a result.
pub Ensures-any {ℓ} : {A : Type ℓ} (r : Result A) → Ensures (λ (a : A). Unit {0}) r
Ensures-any r = Ensures-of_eq _ r (λ a e. tt)

pub Ensures-bind {ℓ κ} :
    {A : Type ℓ} {B : Type κ} (P : A → Type 0) (Q : B → Type 0) (r : Result A) (f : A → Result B)
    → Ensures P r
    → ((a : A) → P a → Ensures Q (f a))
    → Ensures Q (r >>= f)
Ensures-bind P Q (ok a) f p h = h a p
Ensures-bind P Q (err e) f p h = tt

pub Ensures-map {ℓ} :
    {A : Type ℓ} (P Q : A → Type 0) (r : Result A)
    → ((a : A) → P a → Q a)
    → Ensures P r
    → Ensures Q r
Ensures-map P Q (ok a) h p = h a p
Ensures-map P Q (err e) h p = tt

pub Ensures-guard {ℓ} :
    {B : Type ℓ} (Q : B → Type 0) (b : Bool) (e : _) (k : Result B)
    → (b ≡ true → Ensures Q k)
    → Ensures Q (guard b e >> k)
Ensures-guard Q true e k h = h refl
Ensures-guard Q false e k h = tt

pub Ensures-if {ℓ} :
    {A : Type ℓ} (P : A → Type 0) (b : Bool) (x y : Result A)
    → Ensures P x
    → Ensures P y
    → Ensures P (if b then x else y)
Ensures-if P true x y h k = h
Ensures-if P false x y h k = k

module _ {D : Type 0} where
  -- A callback that writes only bytes into the arena.
  abbrev pub KeepsBytes : Option (Callback D) → Type 0
  KeepsBytes none = Unit {0}
  KeepsBytes (some c) =
      (o len : ℕ) (w : Bool) (io : Io D)
      → IsBytes io.space
      → Ensures (λ (io' : Io D). IsBytes io'.space) (c o len w io)

  pub record IsValid (m : Memory D) : Type 0 where
    pub pmem : IsBytes m.pmem
    pub space : IsBytes m.bus.io.space
    pub callbacks : All (λ (k : IoMap D). KeepsBytes k.callback) m.bus.maps

module _ {D : Type 0} (cfg : Config) where
  abbrev IsIo : Io D → Type 0
  IsIo io = IsBytes io.space

  abbrev IsRead : ℕ × Io D → Type 0
  IsRead r = (r.0 < 2 ^ 32) × IsIo r.1

  -- The map that an access goes through, if there is one, has a callback that keeps bytes.
  abbrev MapKeeps : Option (IoMap D) → Type 0
  MapKeeps none = Unit {0}
  MapKeeps (some k) = KeepsBytes k.callback

  invoke_callback-IsIo :
      (c : Option (Callback D)) (o len : ℕ) (w : Bool) (io : Io D)
      → KeepsBytes c
      → IsIo io
      → Ensures IsIo (invoke_callback c o len w io)
  unfolding invoke_callback
  invoke_callback-IsIo none o len w io k h = h
  invoke_callback-IsIo (some c) o len w io k h = k o len w io h

  check_bound-keeps :
      (map : Option (IoMap D)) (addr : ℕ)
      → MapKeeps map
      → Ensures (λ (k : IoMap D). KeepsBytes k.callback) (check_bound map addr)
  unfolding check_bound
  check_bound-keeps none addr k = tt
  check_bound-keeps (some m) addr k =
      Ensures-guard _ (leb addr m.high && leb m.low addr) _ (ok m) (λ _. k)

  map_read-IsRead :
      (addr len : ℕ) (map : Option (IoMap D)) (io : Io D)
      → MapKeeps map
      → IsIo io
      → Ensures IsRead (map_read cfg addr len map io)
  unfolding map_read
  map_read-IsRead addr len map io k h = Ensures-guard IsRead (leb 1 len && leb len 8) _ _ λ _.
      Ensures-bind _ IsRead (check_bound map addr) _ (check_bound-keeps map addr k) λ m km.
        Ensures-bind IsIo IsRead (invoke_callback m.callback (addr - m.low) len false io) _
          (invoke_callback-IsIo m.callback (addr - m.low) len false io km h)
          λ io' h'.
            Ensures-bind (λ v. v < 2 ^ 32) IsRead
              (host_read cfg io_space_max io'.space (m.space + (addr - m.low)) len) _
              (Ensures-of_eq (λ v. v < 2 ^ 32) _
                (λ v e.
                  host_read-lt cfg io_space_max io'.space (m.space + (addr - m.low)) len h' e))
              λ v lt. (lt, h')

  map_write-IsIo :
      (addr len v : ℕ) (map : Option (IoMap D)) (io : Io D)
      → MapKeeps map
      → IsIo io
      → Ensures IsIo (map_write cfg addr len v map io)
  unfolding map_write
  map_write-IsIo addr len v map io k h = Ensures-guard IsIo (leb 1 len && leb len 8) _ _ λ _.
      Ensures-bind _ IsIo (check_bound map addr) _ (check_bound-keeps map addr k) λ m km.
        Ensures-bind IsBytes IsIo
          (host_write cfg io_space_max io.space (m.space + (addr - m.low)) len v) _
          (Ensures-of_eq IsBytes _ (λ b e.
            host_write-IsBytes cfg io_space_max io.space (m.space + (addr - m.low)) len v h e))
          λ b hb.
            invoke_callback-IsIo m.callback (addr - m.low) len true (record io { space = b }) km hb

  find_map-keeps :
      (ms : List (IoMap D)) (addr : ℕ)
      → All (λ (k : IoMap D). KeepsBytes k.callback) ms
      → MapKeeps (find_map ms addr)
  unfolding find_map
  find_map-keeps [] addr h = tt
  find_map-keeps (m ∷ ms) addr h = elim (Bool-cases (leb m.low addr && leb addr m.high)) [
    | inl here ↦ rw here h.0
    | inr on ↦ rw on (find_map-keeps ms addr h.1)
  ]

  -- A lookup leaves the arena and the table.
  skip_on_hit-same :
      (o : Option (IoMap D)) (bus : Bus D)
      → ((skip_on_hit cfg o bus).io ≡ bus.io) × ((skip_on_hit cfg o bus).maps ≡ bus.maps)
  unfolding skip_on_hit
  skip_on_hit-same none bus = (refl, refl)
  skip_on_hit-same (some m) bus = (refl, refl)

  abbrev pub IsValidBus : Bus D → Type 0
  IsValidBus bus = IsBytes bus.io.space × All (λ (k : IoMap D). KeepsBytes k.callback) bus.maps

  mmio_read-valid :
      (addr len : ℕ) (bus : Bus D)
      → IsValidBus bus
      → Ensures (λ (r : ℕ × Bus D). (r.0 < 2 ^ 32) × IsValidBus r.1) (mmio_read cfg addr len bus)
  unfolding mmio_read fetch_mmio_map
  mmio_read-valid addr len bus v =
      let m = find_map bus.maps addr in
      let same = skip_on_hit-same m bus in
      Ensures-bind IsRead _ (map_read cfg addr len m (skip_on_hit cfg m bus).io) _
        (map_read-IsRead addr len m _ (find_map-keeps bus.maps addr v.1) (rw same.0 v.0))
        λ r p. (p.0, (p.1, rw same.1 v.1))

  mmio_write-valid :
      (addr len d : ℕ) (bus : Bus D)
      → IsValidBus bus
      → Ensures IsValidBus (mmio_write cfg addr len d bus)
  unfolding mmio_write fetch_mmio_map
  mmio_write-valid addr len d bus v =
      let m = find_map bus.maps addr in
      let same = skip_on_hit-same m bus in
      Ensures-bind IsIo IsValidBus (map_write cfg addr len d m (skip_on_hit cfg m bus).io) _
        (map_write-IsIo addr len d m _ (find_map-keeps bus.maps addr v.1) (rw same.0 v.0))
        λ io p. (p, rw same.1 v.1)

  pmem_read-word :
      (addr len : ℕ) (m : Memory D)
      → IsValid m
      → Ensures (λ (x : ℕ). x < 2 ^ 32) (pmem_read cfg addr len m)
  unfolding pmem_read
  pmem_read-word addr len m v =
      Ensures-bind (λ (o : ℕ). Unit {0}) _ (guest_to_host cfg addr) _
        (Ensures-of_eq _ (guest_to_host cfg addr) (λ o e. tt))
        λ o _. Ensures-of_eq _ _ (λ x e. host_read-lt cfg cfg.msize m.pmem o len v.pmem e)

  pmem_write-valid :
      (addr len d : ℕ) (m : Memory D)
      → IsValid m
      → Ensures (λ (m' : Memory D). IsValid m') (pmem_write cfg addr len d m)
  unfolding pmem_write
  pmem_write-valid addr len d m v =
      Ensures-bind (λ (o : ℕ). Unit {0}) _ (guest_to_host cfg addr) _
        (Ensures-of_eq _ (guest_to_host cfg addr) (λ o e. tt))
        λ o _.
          Ensures-bind IsBytes _ (host_write cfg cfg.msize m.pmem o len d) _
            (Ensures-of_eq _ _ (λ b e. host_write-IsBytes cfg cfg.msize m.pmem o len d v.pmem e))
            λ b hb. record { pmem = hb; space = v.space; callbacks = v.callbacks }

  -- A load gives a word and keeps memory valid, through physical memory or a device.
  pub paddr_read-valid :
      (addr len : ℕ) (m : Memory D)
      → IsValid m
      → Ensures (λ (r : ℕ × Memory D). (r.0 < 2 ^ 32) × IsValid r.1) (paddr_read cfg addr len m)
  unfolding paddr_read
  paddr_read-valid addr len m v =
      Ensures-if _ (in_pmem cfg addr) _ _
        (Ensures-bind (λ (x : ℕ). x < 2 ^ 32) _ (pmem_read cfg addr len m) _
          (pmem_read-word addr len m v) λ x lt. (lt, v))
        (Ensures-if _ cfg.device _ _
          (Ensures-bind _ _ (mmio_read cfg addr len m.bus) _
            (mmio_read-valid addr len m.bus (v.space, v.callbacks))
            λ r p. (p.0, record { pmem = v.pmem; space = p.1.0; callbacks = p.1.1 }))
          tt)

  -- A store keeps memory valid.
  pub paddr_write-valid :
      (addr len d : ℕ) (m : Memory D)
      → IsValid m
      → Ensures (λ (m' : Memory D). IsValid m') (paddr_write cfg addr len d m)
  unfolding paddr_write
  paddr_write-valid addr len d m v =
      Ensures-if _ (in_pmem cfg addr) _ _ (pmem_write-valid addr len d m v) (
        Ensures-if _ cfg.device _ _
          (Ensures-bind IsValidBus _ (mmio_write cfg addr len d m.bus) _
            (mmio_write-valid addr len d m.bus (v.space, v.callbacks))
            λ bus p. record { pmem = v.pmem; space = p.0; callbacks = p.1 })
          tt)
