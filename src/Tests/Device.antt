-- ===== src/Tests/Device.antt =====
-- The table of devices of the small build.
use my_oscpu.Base.{ℕ, ◌≡◌, refl, arith, [], ◌∷◌, none, some}
use my_oscpu.Device.Map.{IoMap, find_map}
use my_oscpu.Device.Mmio.{add_mmio_map, overlaps_any, new_map}
use my_oscpu.Device.Table.{Disjoint, add_mmio_map-Disjoint, find_map-Disjoint}
use my_oscpu.Memory.Range.{in_pmem}
use my_oscpu.Tests.Data.{small, serial}

serial-Disjoint : Disjoint (serial ∷ [])
serial-Disjoint = (omega arith, tt, tt)

abbrev timer : IoMap ℕ
timer = new_map "rtc" 2684354632 8 8 none

add_mmio_map-Disjoint_example : Disjoint (serial ∷ timer ∷ [])
unfolding add_mmio_map in_pmem overlaps_any
add_mmio_map-Disjoint_example =
    (add_mmio_map-Disjoint small (serial ∷ []) 2684354632 8 8 none "rtc" serial-Disjoint
      (omega arith) (omega arith) refl).0

find_map-Disjoint_example : find_map (serial ∷ []) 2684355580 ≡ some serial
find_map-Disjoint_example =
    (find_map-Disjoint (serial ∷ []) serial 0 2684355580 serial-Disjoint refl).0.1
      (omega arith, omega arith)
