-- ===== src/Device/Port.antt =====
-- nemu/src/device/io/port-io.c: the table of port-mapped regions, and access to them. `ioaddr_t` has 16 bits;
-- `len` of a new region is a uint32_t, with which the sums wrap around. The bus has the port-mapped regions
-- as its maps.
use Prim.Native.String.{String}
use my_oscpu.Base.{
  ℕ, ◌+◌, ◌-◌, ltb, leb, Option, none, some, List, [], ◌∷◌, ◌++◌, length, add32, sub32, Result, ok,
  err, panic, ◌>>=◌, ◌>>◌, guard,
}
use my_oscpu.Config.{Config}
use my_oscpu.Device.Map.{Callback, IoMap, Bus, nr_map, fetch_mmio_map, map_read, map_write}

abbrev pub port_io_space_max : ℕ
port_io_space_max = 65535

abbrev in_port_space : ℕ → ℕ → Result (Unit {0})
in_port_space addr len =
    guard (ltb (addr + len - 1) port_io_space_max)
      (panic "assert(addr + len - 1 < PORT_IO_SPACE_MAX)")

module _ {D : Type 0} where
  unfoldable pub add_pio_map :
      String → ℕ → ℕ → ℕ → Option (Callback D) → List (IoMap D) → Result (List (IoMap D))
  add_pio_map name addr space len callback maps = do
    guard (ltb (length maps) nr_map) (panic "assert(nr_map < NR_MAP)")
    guard (leb (add32 addr len) port_io_space_max) (panic "assert(addr + len <= PORT_IO_SPACE_MAX)")
    ok (
        maps
        ++ record {
          name = name;
          low = addr;
          high = sub32 (add32 addr len) 1;
          space = space;
          callback = callback;
        }
          ∷ [])

  -- `assert(mapid != -1)`.
  abbrev found : Option (IoMap D) → Result (Option (IoMap D))
  found none = err (panic "assert(mapid != -1)")
  found (some m) = ok (some m)

  unfoldable pub pio_read : Config → ℕ → ℕ → Bus D → Result (ℕ × Bus D)
  pio_read cfg addr len bus = do
    in_port_space addr len
    let (m, bus') = fetch_mmio_map cfg bus addr
    m' ← found m
    (v, io') ← map_read cfg addr len m' bus'.io
    ok (v, record bus' { io = io' })

  unfoldable pub pio_write : Config → ℕ → ℕ → ℕ → Bus D → Result (Bus D)
  pio_write cfg addr len data_ bus = do
    in_port_space addr len
    let (m, bus') = fetch_mmio_map cfg bus addr
    m' ← found m
    io' ← map_write cfg addr len data_ m' bus'.io
    ok (record bus' { io = io' })
