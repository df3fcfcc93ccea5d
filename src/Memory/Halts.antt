-- ===== src/Memory/Halts.antt =====
-- A load comes back if the devices' callbacks do: the model's fuel plays no part in nemu/src/memory/paddr.c and
-- nemu/src/device/io/map.c.
use my_oscpu.Base.{
  ℕ, ◌+◌, ◌-◌, Bool, false, ◌&&◌, ◌==◌, leb, Bool-cases, inl, inr, Option, none, some, List, [],
  ◌∷◌, All, Result, ok, err, panic, undefined, Halts, Halts-bind, Halts-if,
}
use my_oscpu.Config.{Config}
use my_oscpu.Memory.Bytes.{Bytes, read_le}
use my_oscpu.Memory.Host.{host_read, load}
use my_oscpu.Memory.Range.{in_pmem, guest_to_host}
use my_oscpu.Memory.Paddr.{Memory, pmem_read, paddr_read}
use my_oscpu.Device.Map.{
  Io, Callback, IoMap, Bus, io_space_max, find_map, check_bound, invoke_callback, map_read,
  mmio_read, fetch_mmio_map, skip_on_hit,
}

-- Nothing but that the fuel was enough.
abbrev pub Returns {ℓ} : {A : Type ℓ} → Result A → Type 0
Returns r = Halts (λ a. Unit {0}) r

load-Returns : (n size : ℕ) (b : Bytes) (o : ℕ) → Returns (load n size b o)
unfolding load
load-Returns n size b o =
    Halts-if (λ v. Unit {0}) (leb (o + n) size) (ok (read_le n b o)) (err undefined) tt tt

host_read-Returns :
    (cfg : Config) (size : ℕ) (b : Bytes) (o len : ℕ) → Returns (host_read cfg size b o len)
unfolding host_read
host_read-Returns cfg size b o len = Halts-if _ (len == 1) _ _ (load-Returns 1 size b o) (
    Halts-if _ (len == 2) _ _ (load-Returns 2 size b o) (
      Halts-if _ (len == 4) _ _ (load-Returns 4 size b o)
        (Halts-if (λ v. Unit {0}) cfg.rt_check (err (panic "assert(0)")) (ok 0) tt tt)))

module _ {D : Type 0} where
  -- A callback that comes back.
  abbrev pub CallbackReturns : Option (Callback D) → Type 0
  CallbackReturns none = Unit {0}
  CallbackReturns (some c) = (o len : ℕ) (w : Bool) (io : Io D) → Returns (c o len w io)

  abbrev pub AllReturn : List (IoMap D) → Type 0
  AllReturn ms = All (λ (k : IoMap D). CallbackReturns k.callback) ms

  abbrev MapReturns : Option (IoMap D) → Type 0
  MapReturns none = Unit {0}
  MapReturns (some k) = CallbackReturns k.callback

  invoke_callback-Returns :
      (c : Option (Callback D)) (o len : ℕ) (w : Bool) (io : Io D)
      → CallbackReturns c
      → Returns (invoke_callback c o len w io)
  unfolding invoke_callback
  invoke_callback-Returns none o len w io k = tt
  invoke_callback-Returns (some c) o len w io k = k o len w io

  find_map-MapReturns :
      (ms : List (IoMap D)) (addr : ℕ) → AllReturn ms → MapReturns (find_map ms addr)
  unfolding find_map
  find_map-MapReturns [] addr h = tt
  find_map-MapReturns (m ∷ ms) addr h = elim (Bool-cases (leb m.low addr && leb addr m.high)) [
    | inl here ↦ rw here h.0
    | inr on ↦ rw on (find_map-MapReturns ms addr h.1)
  ]

module _ {D : Type 0} (cfg : Config) where
  map_read-Returns :
      (addr len : ℕ) (map : Option (IoMap D)) (io : Io D)
      → MapReturns map
      → Returns (map_read cfg addr len map io)
  unfolding map_read check_bound
  map_read-Returns addr len none io k = elim (Bool-cases (leb 1 len && leb len 8)) [
    | inl fits ↦ rw fits tt
    | inr large ↦ rw large tt
  ]
  map_read-Returns addr len (some m) io k = elim (Bool-cases (leb 1 len && leb len 8)) [
    | inl fits ↦ elim (Bool-cases (leb addr m.high && leb m.low addr)) [
      | inl inside ↦
          rw (fits, inside)
            (Halts-bind (λ (io' : Io D). Unit {0}) (λ (r : ℕ × Io D). Unit {0})
              (invoke_callback m.callback (addr - m.low) len false io) _
              (invoke_callback-Returns m.callback (addr - m.low) len false io k)
              λ io' t.
                Halts-bind (λ (v : ℕ). Unit {0}) (λ (r : ℕ × Io D). Unit {0})
                  (host_read cfg io_space_max io'.space (m.space + (addr - m.low)) len) _
                  (host_read-Returns cfg io_space_max io'.space (m.space + (addr - m.low)) len)
                  λ v u. tt)
      | inr outside ↦ rw (fits, outside) tt
    ]
    | inr large ↦ rw large tt
  ]

  -- What a load leaves: the devices' callbacks still come back.
  abbrev pub LeavesReturning : ℕ × Memory D → Type 0
  LeavesReturning r = AllReturn r.1.bus.maps

  skip_on_hit-AllReturn :
      (o : Option (IoMap D)) (bus : Bus D)
      → AllReturn bus.maps
      → AllReturn (skip_on_hit cfg o bus).maps
  unfolding skip_on_hit
  skip_on_hit-AllReturn none bus h = h
  skip_on_hit-AllReturn (some m) bus h = h

  pub paddr_read-Returns :
      (addr len : ℕ) (m : Memory D)
      → AllReturn m.bus.maps
      → Halts LeavesReturning (paddr_read cfg addr len m)
  unfolding paddr_read pmem_read guest_to_host mmio_read fetch_mmio_map
  paddr_read-Returns addr len m h =
      Halts-if LeavesReturning (in_pmem cfg addr) _ _
        (Halts-bind (λ (v : ℕ). Unit {0}) LeavesReturning (pmem_read cfg addr len m) _
          (Halts-bind (λ (o : ℕ). Unit {0}) (λ (v : ℕ). Unit {0}) (guest_to_host cfg addr) _
            (Halts-if (λ (o : ℕ). Unit {0}) (leb cfg.mbase addr) (ok (addr - cfg.mbase))
              (err undefined) tt tt)
            λ o t. host_read-Returns cfg cfg.msize m.pmem o len)
          λ v t. h)
        (Halts-if LeavesReturning cfg.device _ _
          (Halts-bind (λ (r : ℕ × Bus D). AllReturn r.1.maps) LeavesReturning
            (mmio_read cfg addr len m.bus) _
            (let found : Option (IoMap D) = find_map m.bus.maps addr in
              Halts-bind (λ (r : ℕ × Io D). Unit {0}) (λ (r : ℕ × Bus D). AllReturn r.1.maps)
                (map_read cfg addr len found (skip_on_hit cfg found m.bus).io) _
                (map_read-Returns addr len found (skip_on_hit cfg found m.bus).io
                  (find_map-MapReturns m.bus.maps addr h))
                λ r t. skip_on_hit-AllReturn found m.bus h)
            λ r k. k)
          tt)
