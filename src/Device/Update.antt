-- ===== src/Device/Update.antt =====
-- `device_update` of nemu/src/device/device.c: at most sixty times a second, the screen is updated and the host's
-- events are handled. What SDL_PollEvent gives at each update is a parameter.
pub mod Space
use my_oscpu.Base.{
  ℕ, suc, zero, ◌+◌, ◌-◌, ◌/◌, ◌%◌, ◌^◌, Bool, true, false, ltb, if◌then◌else◌, List, [], ◌∷◌,
  Result, ok, ◌>>=◌,
}
use my_oscpu.Config.{Config}
use my_oscpu.Memory.Bytes.{Bytes}
use my_oscpu.Device.Map.{Io}
use my_oscpu.Device.Clock.{Clock, get_time}
use my_oscpu.Device.Keyboard.{Keyboard, send_key}
use my_oscpu.Device.Vga.{vga_update_screen}

-- The types of events that the loop tells apart.
pub data Event : Type 0 where
  quit_event : Event
  key_event : ℕ → Bool → Event
  other_event : Event

-- Where the devices' state has the keyboard and the clock, and the host's side: its clock's readings, its
-- screen, and the events of each poll. `vgactl_port_base` is the place of the screen's registers.
pub record Host (D : Type 0) : Type 0 where
  pub keyboard : D → Keyboard
  pub set_keyboard : Keyboard → D → D
  pub clock : D → Clock
  pub set_clock : Clock → D → D
  pub reading : ℕ → ℕ
  pub update_screen : Bytes → D → D
  pub vgactl_port_base : ℕ
  pub polled : ℕ → List Event

-- `last`, and the number of polls before.
pub record Updates : Type 0 where
  pub last : ℕ
  pub polls : ℕ

abbrev pub timer_hz : ℕ
timer_hz = 60

module _ {D : Type 0} (cfg : Config) (h : Host D) where
  -- `get_time`, with the clock among the devices' state.
  unfoldable pub time_of : Io D → ℕ × Io D
  time_of io =
      let (now, c) = get_time h.reading (h.clock io.dev) in
      (now, record io { dev = h.set_clock c io.dev })

  abbrev pub key_sent : ℕ → Bool → Bool → Io D → Result (Io D)
  key_sent scancode is_keydown running io = do
    k ← send_key running scancode is_keydown (h.keyboard io.dev)
    ok (record io { dev = h.set_keyboard k io.dev })

  -- The loop over the events; the flags are that the emulator's state is NEMU_RUNNING, and that it is to be
  -- NEMU_QUIT. An event of a key after one of the window's end finds the state changed.
  unfoldable pub poll_events : List Event → Bool → Bool → Io D → Result (Bool × Io D)
  poll_events [] running quit io = ok (quit, io)
  poll_events (quit_event ∷ es) running quit io = poll_events es false true io
  poll_events (key_event scancode is_keydown ∷ es) running quit io =
      if cfg.has_keyboard
      then (key_sent scancode is_keydown running io >>= poll_events es running quit)
      else poll_events es running quit io
  poll_events (other_event ∷ es) running quit io = poll_events es running quit io

  abbrev pub screen : Io D → Io D
  screen io = if cfg.has_vga then vga_update_screen h.update_screen h.vgactl_port_base io else io

  -- The result's flag is that the state becomes NEMU_QUIT.
  unfoldable pub device_update : Bool → Updates → Io D → Result (Bool × Updates × Io D)
  unfolding time_of poll_events
  device_update running u io =
      let (now, io') = time_of io in
      if ltb ((now + 2 ^ 64 - u.last) % 2 ^ 64) (1000000 / timer_hz)
      then ok (false, u, io')
      else (poll_events (h.polled u.polls) running false (screen io') >>= λ r.
          ok (r.0, record { last = now; polls = suc u.polls }, r.1))
