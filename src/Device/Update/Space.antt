-- ===== src/Device/Update/Space.antt =====
-- `device_update` writes only bytes into the arena (nemu/src/device/device.c, nemu/src/device/vga.c).
use my_oscpu.Base.{
  ◌+◌, ◌-◌, ◌/◌, ◌%◌, ◌^◌, Bool, true, false, ltb, ◌==◌, Bool-cases, inl, inr, List, [], ◌∷◌,
}
use my_oscpu.Config.{Config}
use my_oscpu.Memory.Bytes.{IsBytes, read_le, write_le-IsBytes}
use my_oscpu.Memory.Valid.{Ensures, Ensures-bind, Ensures-of_eq, Ensures-if}
use my_oscpu.Device.Map.{Io}
use my_oscpu.Device.Keyboard.{Keyboard, send_key}
use my_oscpu.Device.Vga.{vga_update_screen}
use my_oscpu.Device.Update.{
  Host, Updates, Event, quit_event, key_event, other_event, time_of, poll_events, device_update,
  timer_hz, screen, key_sent,
}

module _ {D : Type 0} (cfg : Config) (h : Host D) where
  pub time_of-IsBytes : (io : Io D) → IsBytes io.space → IsBytes (time_of cfg h io).1.space
  unfolding time_of
  time_of-IsBytes io b = b

  IsPolled : Bool × Io D → Type 0
  IsPolled r = IsBytes r.1.space

  poll_events-IsBytes :
      (es : List Event) (running quit : Bool) (io : Io D)
      → IsBytes io.space
      → Ensures IsPolled (poll_events cfg h es running quit io)
  unfolding poll_events
  poll_events-IsBytes [] running quit io b = unfold IsPolled in b
  poll_events-IsBytes (quit_event ∷ es) running quit io b = poll_events-IsBytes es false true io b
  poll_events-IsBytes (key_event scancode down ∷ es) running quit io b =
      Ensures-if IsPolled cfg.has_keyboard _ _
        (Ensures-bind (λ (io' : Io D). IsBytes io'.space) IsPolled
          (key_sent cfg h scancode down running io) _
          (Ensures-bind (λ (k : Keyboard). Unit {0}) (λ (io' : Io D). IsBytes io'.space)
            (send_key running scancode down (h.keyboard io.dev)) _
            (Ensures-of_eq _ (send_key running scancode down (h.keyboard io.dev)) (λ k e. tt))
            λ k t. b)
          λ io' b'. poll_events-IsBytes es running quit io' b')
        (poll_events-IsBytes es running quit io b)
  poll_events-IsBytes (other_event ∷ es) running quit io b =
      poll_events-IsBytes es running quit io b

  screen-IsBytes :
      (io : Io D)
      → IsBytes io.space
      → IsBytes (vga_update_screen h.update_screen h.vgactl_port_base io).space
  unfolding vga_update_screen
  screen-IsBytes io b = elim (Bool-cases (read_le 4 io.space (h.vgactl_port_base + 4) == 0)) [
    | inl unset ↦ rw unset b
    | inr set ↦ rw set (write_le-IsBytes 4 io.space (h.vgactl_port_base + 4) 0 b)
  ]

  maybe_screen-IsBytes : (io : Io D) → IsBytes io.space → IsBytes (screen cfg h io).space
  maybe_screen-IsBytes io b = elim (Bool-cases cfg.has_vga) [
    | inl has ↦ rw has (screen-IsBytes io b)
    | inr hasnt ↦ rw hasnt b
  ]

  pub device_update-IsBytes :
      (running : Bool) (u : Updates) (io : Io D)
      → IsBytes io.space
      → Ensures
          (λ (r : Bool × Updates × Io D). IsBytes r.2.space)
          (device_update cfg h running u io)
  unfolding device_update time_of IsPolled
  device_update-IsBytes running u io b =
      let (now, io') = time_of cfg h io in
      Ensures-if (λ (r : Bool × Updates × Io D). IsBytes r.2.space)
        (ltb ((now + 2 ^ 64 - u.last) % 2 ^ 64) (1000000 / timer_hz)) _ _ b
        (Ensures-bind IsPolled (λ (r : Bool × Updates × Io D). IsBytes r.2.space)
          (poll_events cfg h (h.polled u.polls) running false (screen cfg h io')) _
          (poll_events-IsBytes (h.polled u.polls) running false (screen cfg h io')
            (maybe_screen-IsBytes io' b))
          λ r b'. b')
