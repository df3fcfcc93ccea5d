-- ===== src/Device/Init/Regions.antt =====
-- The regions that `init_device` of nemu/src/device/device.c leaves: apart on the bus and apart in the arena.
use Prim.Native.String.{String}
use my_oscpu.Base.{
  subst, sym, ℕ, ◌+◌, ◌-◌, ◌%◌, ◌^◌, ◌≤◌, ◌<◌, ◌≡◌, refl, Bool, arith, if◌then◌else◌, Option, List,
  [], ◌∷◌, ◌++◌, length, Result, ok, ◌>>=◌,
}
use my_oscpu.Config.{Config}
use my_oscpu.Memory.Bytes.{Bytes}
use my_oscpu.Memory.Valid.{Ensures, Ensures-bind, Ensures-of_eq, Ensures-if}
use my_oscpu.Device.Map.{Callback, IoMap, nr_map, new_space, io_space_max}
use my_oscpu.Device.Mmio.{add_mmio_map, new_map}
use my_oscpu.Device.Table.{Disjoint, add_mmio_map-Disjoint}
use my_oscpu.Device.Sdcard.{CardFile}
use my_oscpu.Device.Alarm.{add_alarm_handle}
use my_oscpu.Device.Init.{
  Board, Devices, Setup, screen_size, add_region, init_map, init_serial, init_timer, init_vga,
  init_i8042, init_audio, init_sdcard, init_device,
}

-- A region of at least one byte that ends within 32 bits, and whose size is an int.
abbrev pub Fits : ℕ → ℕ → Type 0
Fits addr size = (1 ≤ size) × (addr + size ≤ 2 ^ 32) × (size < 2 ^ 31)

-- The options place every region within 32 bits.
pub record IsPlaced (b : Board) : Type 0 where
  pub serial : Fits b.serial_mmio 8
  pub rtc : Fits b.rtc_mmio 8
  pub vgactl : Fits b.vga_ctl_mmio 8
  pub vmem : Fits b.fb_addr (screen_size b)
  pub keyboard : Fits b.i8042_data_mmio 4
  pub audio : Fits b.audio_ctl_mmio 24
  pub sbuf : Fits b.sb_addr b.sb_size
  pub sdcard : Fits b.sdcard_ctl_mmio 128

module _ {D : Type 0} where
  -- One past the last place of a region in the arena.
  abbrev pub space_end : IoMap D → ℕ
  space_end m = m.space + (m.high - m.low) + 1

  -- From `p` to `q`, the regions have places in the arena one behind the other, each from a page on.
  abbrev pub Stacked : ℕ → List (IoMap D) → ℕ → Type 0
  Stacked p [] q = p ≤ q
  Stacked p (m ∷ ms) q = (p ≤ m.space) × (m.space % 4096 ≡ 0) × Stacked (space_end m) ms q

  Stacked-snoc :
      (ms : List (IoMap D)) (n : IoMap D) (p q r : ℕ)
      → Stacked p ms q
      → q ≤ n.space
      → n.space % 4096 ≡ 0
      → space_end n ≤ r
      → Stacked p (ms ++ n ∷ []) r
  Stacked-snoc [] n p q r h l a e = (omega (arith, h, l), a, e)
  Stacked-snoc (m ∷ ms) n p q r h l a e = (h.0, h.1, Stacked-snoc ms n (space_end m) q r h.2 l a e)

new_space-inv :
    (p size : ℕ) {r : ℕ × ℕ}
    → p % 4096 ≡ 0
    → size < 2 ^ 31
    → new_space p size ≡ ok r
    → (r.0 ≡ p) × (p + size ≤ r.1) × (r.1 < io_space_max) × (r.1 % 4096 ≡ 0)
unfolding new_space
new_space-inv p size a l e = ground arith

-- The regions are apart on the bus, at most NR_MAP, and apart in the arena, which they do not leave.
pub record IsReady {F S : Type 0} (s : Setup F S) : Type 0 where
  pub disjoint : Disjoint s.maps
  pub number : length s.maps ≤ nr_map
  pub stacked : Stacked 0 s.maps s.p_space
  pub inside : s.p_space < io_space_max
  pub aligned : s.p_space % 4096 ≡ 0

module _ {F S : Type 0} (cfg : Config) (b : Board) where
  add_region-IsReady :
      (name : String) (addr size : ℕ) (fill : ℕ → Bytes → Bytes)
      (callback : ℕ → Option (Callback (Devices F))) (s : Setup F S)
      → Fits addr size
      → IsReady s
      → Ensures
          (λ (r : ℕ × Setup F S). IsReady r.1)
          (add_region cfg b name addr size fill callback s)
  unfolding add_region
  add_region-IsReady name addr size fill callback s f h =
      Ensures-bind
        (λ (r : ℕ × ℕ).
          (r.0 ≡ s.p_space) × (s.p_space + size ≤ r.1) × (r.1 < io_space_max) × (r.1 % 4096 ≡ 0))
        (λ (r : ℕ × Setup F S). IsReady r.1) (new_space s.p_space size) _
        (Ensures-of_eq _ (new_space s.p_space size)
          (λ r e. new_space-inv s.p_space size h.aligned f.2 e))
        λ r at.
          Ensures-bind
            (λ maps'. add_mmio_map cfg name addr r.0 size (callback r.0) s.maps ≡ ok maps')
            (λ (r : ℕ × Setup F S). IsReady r.1)
            (add_mmio_map cfg name addr r.0 size (callback r.0) s.maps) _
            (Ensures-of_eq _ (add_mmio_map cfg name addr r.0 size (callback r.0) s.maps) (λ m e. e))
            λ maps' e.
              let m = new_map name addr r.0 size (callback r.0) in
              let added =
                add_mmio_map-Disjoint cfg s.maps addr r.0 size (callback r.0) name h.disjoint f.0
                  f.1 e in
              record {
                disjoint = added.0;
                number = added.1;
                stacked =
                    subst (λ ms. Stacked 0 ms r.1) (sym added.2)
                      (Stacked-snoc s.maps m 0 s.p_space r.1 h.stacked (omega (arith, at))
                        (omega (arith, at, h.aligned)) (omega (arith, at, f)));
                inside = at.2;
                aligned = at.3;
              }

  -- A device with one region.
  one_region-IsReady :
      (name : String) (addr size : ℕ) (fill : ℕ → Bytes → Bytes)
      (callback : ℕ → Option (Callback (Devices F))) (s : Setup F S)
      (k : ℕ × Setup F S → Result (Setup F S))
      → Fits addr size
      → IsReady s
      → ((r : ℕ × Setup F S) → IsReady r.1 → Ensures IsReady (k r))
      → Ensures IsReady (add_region cfg b name addr size fill callback s >>= k)
  one_region-IsReady name addr size fill callback s k f h next =
      Ensures-bind (λ (r : ℕ × Setup F S). IsReady r.1) IsReady
        (add_region cfg b name addr size fill callback s) k
        (add_region-IsReady name addr size fill callback s f h) next

  module _ (placed : IsPlaced b) where
    init_serial-IsReady : (s : Setup F S) → IsReady s → Ensures IsReady (init_serial cfg b s)
    unfolding init_serial
    init_serial-IsReady s h = one_region-IsReady _ _ _ _ _ s _ placed.serial h λ r k. k

    init_timer-IsReady :
        (reading : ℕ → ℕ) (running : S → Bool) (s : Setup F S)
        → IsReady s
        → Ensures IsReady (init_timer cfg b reading running s)
    unfolding init_timer add_alarm_handle
    init_timer-IsReady reading running s h = one_region-IsReady _ _ _ _ _ s _ placed.rtc h λ r k.
        Ensures-bind (λ hs. Unit {0}) IsReady (add_alarm_handle _ r.1.handlers) _
          (Ensures-of_eq _ (add_alarm_handle _ r.1.handlers) (λ hs e. tt))
          λ hs t. record {
            disjoint = k.disjoint;
            number = k.number;
            stacked = k.stacked;
            inside = k.inside;
            aligned = k.aligned;
          }

    init_vga-IsReady : (s : Setup F S) → IsReady s → Ensures IsReady (init_vga cfg b s)
    unfolding init_vga
    init_vga-IsReady s h = one_region-IsReady _ _ _ _ _ s _ placed.vgactl h λ r k.
        one_region-IsReady _ _ _ _ _ r.1 _ placed.vmem k λ q k'. record {
          disjoint = k'.disjoint;
          number = k'.number;
          stacked = k'.stacked;
          inside = k'.inside;
          aligned = k'.aligned;
        }

    init_i8042-IsReady : (s : Setup F S) → IsReady s → Ensures IsReady (init_i8042 cfg b s)
    unfolding init_i8042
    init_i8042-IsReady s h = one_region-IsReady _ _ _ _ _ s _ placed.keyboard h λ r k. k

    init_audio-IsReady : (s : Setup F S) → IsReady s → Ensures IsReady (init_audio cfg b s)
    unfolding init_audio
    init_audio-IsReady s h =
        one_region-IsReady _ _ _ _ _ s _ placed.audio h
          λ r k. one_region-IsReady _ _ _ _ _ r.1 _ placed.sbuf k λ q k'. k'

    init_sdcard-IsReady :
        (f : CardFile F) (image : Option F) (s : Setup F S)
        → IsReady s
        → Ensures IsReady (init_sdcard cfg b f image s)
    unfolding init_sdcard
    init_sdcard-IsReady f image s h = one_region-IsReady _ _ _ _ _ s _ placed.sdcard h λ r k.
        record {
          disjoint = k.disjoint;
          number = k.number;
          stacked = k.stacked;
          inside = k.inside;
          aligned = k.aligned;
        }

    ifdef-IsReady :
        (here : Bool) (init : Setup F S → Result (Setup F S)) (s : Setup F S)
        → IsReady s
        → ((s : Setup F S) → IsReady s → Ensures IsReady (init s))
        → Ensures IsReady (if here then init s else ok s)
    ifdef-IsReady here init s h ready = Ensures-if IsReady here (init s) (ok s) (ready s h) h

    before-IsReady :
        (here : Bool) (init : Setup F S → Result (Setup F S)) (s : Setup F S)
        (k : Setup F S → Result (Setup F S))
        → IsReady s
        → ((s : Setup F S) → IsReady s → Ensures IsReady (init s))
        → ((s : Setup F S) → IsReady s → Ensures IsReady (k s))
        → Ensures IsReady ((if here then init s else ok s) >>= k)
    before-IsReady here init s k h ready next =
        Ensures-bind IsReady IsReady (if here then init s else ok s) k
          (ifdef-IsReady here init s h ready) next

    -- If `init_device` returns where the options place every region within 32 bits, with a size that is positive as an int, and no region was registered
    -- before, the regions it leaves are apart on the bus, at most NR_MAP, and have places in the arena that start at
    -- pages, one behind the other, within IO_SPACE_MAX.
    pub init_device-IsReady :
        (reading : ℕ → ℕ) (running : S → Bool) (f : CardFile F) (image : Option F) (s : Setup F S)
        → s.maps ≡ []
        → Ensures IsReady (init_device cfg b reading running f image s)
    unfolding init_device init_map
    init_device-IsReady reading running f image s empty =
        before-IsReady b.has_serial _ (init_map s) _ start init_serial-IsReady λ s1 h1.
          before-IsReady b.has_timer _ s1 _ h1 (init_timer-IsReady reading running) λ s2 h2.
            before-IsReady cfg.has_vga _ s2 _ h2 init_vga-IsReady λ s3 h3.
              before-IsReady cfg.has_keyboard _ s3 _ h3 init_i8042-IsReady λ s4 h4.
                before-IsReady b.has_audio _ s4 _ h4 init_audio-IsReady
                  λ s5 h5. ifdef-IsReady b.has_sdcard _ s5 h5 (init_sdcard-IsReady f image)
      where
        start : IsReady (init_map s)
        start = record {
          disjoint = subst Disjoint (sym empty) tt;
          number = subst (λ ms. length ms ≤ nr_map) (sym empty) (omega arith);
          stacked = subst (λ ms. Stacked 0 ms 0) (sym empty) (omega arith);
          inside = omega arith;
          aligned = refl;
        }
