-- ===== src/Device/Map.antt =====
-- nemu/src/device/io/map.c, nemu/src/device/io/mmio.c and nemu/include/device/map.h: the arena that
-- device registers live in, the table of memory-mapped regions, and access to them.
-- A pointer into the arena is its offset. `D` is the state that the devices' callbacks keep.
use Prim.Native.String.{String}
use my_oscpu.Base.{
  ℕ, ◌+◌, ◌-◌, ◌*◌, ◌/◌, ◌^◌, Bool, true, false, ◌&&◌, leb, ltb, if◌then◌else◌, Option, none, some,
  List, [], ◌∷◌, Result, ok, err, panic, undefined, ◌>>=◌, ◌>>◌, guard,
}
use my_oscpu.Config.{Config}
use my_oscpu.Memory.Bytes.{Bytes}
use my_oscpu.Memory.Host.{host_read, host_write}

abbrev pub io_space_max : ℕ
io_space_max = 2 * 1024 * 1024

abbrev pub nr_map : ℕ
nr_map = 16

pub record Io (D : Type 0) : Type 0 where
  pub space : Bytes
  pub dev : D

-- `io_callback_t`: offset, length, is_write.
abbrev pub Callback : Type 0 → Type 0
Callback D = ℕ → ℕ → Bool → Io D → Result (Io D)

pub record IoMap (D : Type 0) : Type 0 where
  pub name : String
  pub low : ℕ
  pub high : ℕ
  pub space : ℕ
  pub callback : Option (Callback D)

-- `is_skip_ref` and `skip_dut_nr_inst` of nemu/src/cpu/difftest/dut.c.
pub record Difftest : Type 0 where
  pub is_skip_ref : Bool
  pub skip_dut_nr_inst : ℕ

pub record Bus (D : Type 0) : Type 0 where
  pub io : Io D
  pub maps : List (IoMap D)
  pub difftest : Difftest

unfoldable pub difftest_skip_ref : Config → Difftest → Difftest
difftest_skip_ref cfg d =
    if cfg.difftest then record { is_skip_ref = true; skip_dut_nr_inst = 0 } else d

-- `new_space` behind the rounding: `p_space` is at `p'` then. The result is the pointer and the new `p_space`.
abbrev moved_to : ℕ → ℕ → Result (ℕ × ℕ)
moved_to p_space p' =
    guard (ltb p' io_space_max) (panic "assert(p_space - io_space < IO_SPACE_MAX)")
    >> ok (p_space, p')

-- `new_space`: the pages left of `p_space` are taken. `size` is the pattern of an int: the sum that rounds it up
-- must not overflow, a negative size is rounded towards 0 and moves `p_space` back, and in front of the arena that
-- is not defined.
unfoldable pub new_space : ℕ → ℕ → Result (ℕ × ℕ)
new_space p_space size =
    let pages = (size + 4095) / 4096 * 4096 in
    let back = (2 ^ 32 - size) / 4096 * 4096 in
    if ltb size (2 ^ 31)
    then (guard (ltb (size + 4095) (2 ^ 31)) undefined >> moved_to p_space (p_space + pages))
    else (guard (leb back p_space) undefined >> moved_to p_space (p_space - back))

module _ {D : Type 0} where
  abbrev pub map_inside : IoMap D → ℕ → Bool
  map_inside m addr = leb m.low addr && leb addr m.high

  -- The map that `find_mapid_by_addr` has the index of, and `none` for -1.
  unfoldable pub find_map : List (IoMap D) → ℕ → Option (IoMap D)
  find_map [] addr = none
  find_map (m ∷ ms) addr = if map_inside m addr then some m else find_map ms addr

  unfoldable pub invoke_callback : Option (Callback D) → ℕ → ℕ → Bool → Io D → Result (Io D)
  invoke_callback none offset len is_write io = ok io
  invoke_callback (some c) offset len is_write io = c offset len is_write io

  -- `check_bound` and the pointer to the map that it has checked.
  unfoldable pub check_bound : Option (IoMap D) → ℕ → Result (IoMap D)
  check_bound none addr = err (panic "address is out of bound")
  check_bound (some m) addr =
      guard (leb addr m.high && leb m.low addr) (panic "address is out of bound of the map") >> ok m

  unfoldable pub map_read : Config → ℕ → ℕ → Option (IoMap D) → Io D → Result (ℕ × Io D)
  unfolding check_bound
  map_read cfg addr len map io = do
    guard (leb 1 len && leb len 8) (panic "assert(len >= 1 && len <= 8)")
    m ← check_bound map addr
    let offset = addr - m.low
    io' ← invoke_callback m.callback offset len false io
    ret ← host_read cfg io_space_max io'.space (m.space + offset) len
    ok (ret, io')

  unfoldable pub map_write : Config → ℕ → ℕ → ℕ → Option (IoMap D) → Io D → Result (Io D)
  unfolding check_bound
  map_write cfg addr len data_ map io = do
    guard (leb 1 len && leb len 8) (panic "assert(len >= 1 && len <= 8)")
    m ← check_bound map addr
    let offset = addr - m.low
    space' ← host_write cfg io_space_max io.space (m.space + offset) len data_
    invoke_callback m.callback offset len true (record io { space = space' })

  -- What `find_mapid_by_addr` does besides: a hit makes the reference skip the instruction.
  unfoldable pub skip_on_hit : Config → Option (IoMap D) → Bus D → Bus D
  unfolding difftest_skip_ref
  skip_on_hit cfg none bus = bus
  skip_on_hit cfg (some m) bus = record bus { difftest = difftest_skip_ref cfg bus.difftest }

  -- `fetch_mmio_map`: the map for an address, and the difftest flags that the search leaves.
  unfoldable pub fetch_mmio_map : Config → Bus D → ℕ → Option (IoMap D) × Bus D
  unfolding skip_on_hit
  fetch_mmio_map cfg bus addr = let m = find_map bus.maps addr in (m, skip_on_hit cfg m bus)

  unfoldable pub mmio_read : Config → ℕ → ℕ → Bus D → Result (ℕ × Bus D)
  mmio_read cfg addr len bus =
      let (m, bus') = fetch_mmio_map cfg bus addr in
      do (v, io') ← map_read cfg addr len m bus'.io; ok (v, record bus' { io = io' })

  unfoldable pub mmio_write : Config → ℕ → ℕ → ℕ → Bus D → Result (Bus D)
  mmio_write cfg addr len data_ bus =
      let (m, bus') = fetch_mmio_map cfg bus addr in
      do io' ← map_write cfg addr len data_ m bus'.io; ok (record bus' { io = io' })
