-- ===== src/Counters/Capture/Pins.antt =====
-- The pins on which a pulse can be measured.
use samlibs.Base.{
  ℕ, ◌<◌, Bool, true, false, ◌==◌, Result, ok, ◌>>=◌, ◌≡◌, refl, ◌↔◌, >>=-inverse, ok-injective, ap,
  Option, none, some,
}
use samlibs.Gpio.{Ports, is_there, gpio_none, Direction}
use samlibs.Gpio.There.{set_pin_function_ok, set_pin_direction_ok, set_pin_pull_mode_ok}
use samlibs.System.Eic.{Eic, enable_event, get_gpio_eic_channel}
use samlibs.System.Eic.Config.{config_ext_below, config_ext_inverse}
use samlibs.System.Events.{event_init}
use samlibs.Counters.{Device, Board}
use samlibs.Counters.Capture.{
  CaptureConfig, init_ppw, input_pin, listen, measuring, listening, eic_high, eic_init, configured,
}

-- A pin that exists is set up.
input_pin_ok :
    (d : Device) (c : CaptureConfig) (p : Ports)
    → is_there d.pins c.gpio ≡ true
    → (p' : Ports) × (input_pin d c p ≡ ok p')
input_pin_ok d c p there =
    let (p0, e0) = set_pin_function_ok d.pins c.gpio 0 p there in
    let (p1, e1) = set_pin_direction_ok d.pins c.gpio Direction.input p0 there in
    let (p2, e2) = set_pin_pull_mode_ok d.pins c.gpio c.pull p1 there in (p2, rw (e0) (rw (e1) e2))

listen_ok :
    (d : Device) (pa08 : ℕ) (c : CaptureConfig) (e : Eic)
    → get_gpio_eic_channel d.pins pa08 c.gpio < 8
    → (e' : Eic) × (listen d pa08 c e ≡ ok e')
listen_ok d pa08 c e h =
    let (e', p) =
      config_ext_below (get_gpio_eic_channel d.pins pa08 c.gpio) false false eic_high
        (eic_init (enable_event (get_gpio_eic_channel d.pins pa08 c.gpio) e)) h in
    (e', rw (p))

configured_inverse : (o : Option Eic) (e : Eic) → configured o ≡ ok e → o ≡ some e
configured_inverse none e h = cc
configured_inverse (some x) e h = ap some (ok-injective h)

listen_beyond :
    (d : Device) (pa08 : ℕ) (c : CaptureConfig) (e e' : Eic)
    → listen d pa08 c e ≡ ok e'
    → get_gpio_eic_channel d.pins pa08 c.gpio < 8
listen_beyond d pa08 c e e' h =
    config_ext_inverse (get_gpio_eic_channel d.pins pa08 c.gpio) false false eic_high _ e'
      (configured_inverse _ e' h)

-- What `xSamCaptureInitPPW` leaves when it returns pdPASS.
abbrev finished : Device → CaptureConfig → Board → Ports → Eic → Board
finished d c b ports eic = record {
  clocks = listening d c b.clocks;
  ports = ports;
  eic = eic;
  evsys = (event_init d.timers c.event_config b.evsys).1;
  timer = measuring c b.timer;
}

abbrev pub Success : Device → ℕ → CaptureConfig → Board → Type 0
Success d pa08 c b =
    (b' : Board) × (init_ppw d pa08 c b ≡ ok (true, b')) × (b'.timer ≡ measuring c b.timer)

module _ (d : Device) (pa08 : ℕ) (c : CaptureConfig) (b : Board) (idle : b.timer.is_enabled ≡ false)
    (used : (c.gpio == gpio_none) ≡ false) where
  init_ppw-Succeeds :
      is_there d.pins c.gpio ≡ true
      → get_gpio_eic_channel d.pins pa08 c.gpio < 8
      → Success d pa08 c b
  unfolding init_ppw
  init_ppw-Succeeds there h =
      let (ports, e0) = input_pin_ok d c b.ports there in
      let (eic, e1) = listen_ok d pa08 c b.eic h in
      (finished d c b ports eic, rw (idle) (rw (used) (rw (e0) (rw (e1)))), refl)

  init_ppw_inverse :
      (b' : Board)
      → init_ppw d pa08 c b ≡ ok (true, b')
      → get_gpio_eic_channel d.pins pa08 c.gpio < 8
  unfolding init_ppw
  init_ppw_inverse b' h = go (rw (idle, used) at h)
    where
      rest : Ports → Result (Bool × Board)
      rest p = listen d pa08 c b.eic >>= (λ e. ok (true, finished d c b p e))

      go :
          (input_pin d c b.ports >>= rest) ≡ ok (true, b')
          → get_gpio_eic_channel d.pins pa08 c.gpio < 8
      go e =
          let (p, e0, e1) = >>=-inverse (input_pin d c b.ports) rest (true, b') e in
          let (q, e2, e3) =
            >>=-inverse (listen d pa08 c b.eic) (λ x. ok (true, finished d c b p x)) (true, b')
              e1 in
          listen_beyond d pa08 c b.eic q e2

-- With an idle timer and a pin that the device has, `xSamCaptureInitPPW` sets the timer up to
-- measure exactly when the external interrupt of the pin is one of the first eight channels; with
-- another, `sam_EICConfigExt` shifts by more than the width.
pub init_ppw_iff :
    (d : Device) (pa08 : ℕ) (c : CaptureConfig) (b : Board)
    → b.timer.is_enabled ≡ false
    → (c.gpio == gpio_none) ≡ false
    → is_there d.pins c.gpio ≡ true
    → Success d pa08 c b ↔ (get_gpio_eic_channel d.pins pa08 c.gpio < 8)
init_ppw_iff d pa08 c b idle used there = (
  λ s. init_ppw_inverse d pa08 c b idle used s.0 s.1,
  init_ppw-Succeeds d pa08 c b idle used there,
)
