-- ===== src/Device/Mmio.antt =====
-- nemu/src/device/io/mmio.c, `add_mmio_map`: regions are added to the table one by one.
use Prim.Native.String.{String}
use my_oscpu.Base.{
  ℕ, Bool, false, ◌&&◌, ◌||◌, leb, ltb, Option, List, [], ◌∷◌, ◌++◌, length, not, Result, ok, panic,
  ◌>>◌, guard, add32, sub32,
}
use my_oscpu.Config.{Config}
use my_oscpu.Memory.Range.{in_pmem}
use my_oscpu.Device.Map.{Callback, IoMap, nr_map}

module _ {D : Type 0} where
  -- The loop over the registered maps: some map meets [left, right].
  unfoldable pub overlaps_any : List (IoMap D) → ℕ → ℕ → Bool
  overlaps_any [] left right = false
  overlaps_any (m ∷ ms) left right =
      (leb left m.high && leb m.low right) || overlaps_any ms left right

  abbrev pub new_map : String → ℕ → ℕ → ℕ → Option (Callback D) → IoMap D
  new_map name addr space len callback = record {
    name = name;
    low = addr;
    high = sub32 (add32 addr len) 1;
    space = space;
    callback = callback;
  }

  unfoldable pub add_mmio_map :
      Config → String → ℕ → ℕ → ℕ → Option (Callback D) → List (IoMap D) → Result (List (IoMap D))
  unfolding overlaps_any
  add_mmio_map cfg name addr space len callback maps = do
    guard (ltb (length maps) nr_map) (panic "assert(nr_map < NR_MAP)")
    let left = addr
    let right = sub32 (add32 addr len) 1
    guard (not (in_pmem cfg left || in_pmem cfg right))
        (panic "MMIO region is overlapped with pmem")
    guard (not (overlaps_any maps left right)) (panic "MMIO region is overlapped")
    ok (maps ++ new_map name addr space len callback ∷ [])
