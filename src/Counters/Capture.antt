-- ===== src/Counters/Capture.antt =====
-- counters/samcapture.c.
pub mod Pins
use samlibs.Base.{
  ℕ, ◌+◌, Bool, true, false, ◌==◌, ltb, if◌then◌else◌, Result, ok, fault, Fault, ◌>>=◌, Option,
  none, some,
}
use samlibs.Gpio.{
  Decoding, Ports, Direction, PullMode, gpio_none, set_pin_function, set_pin_direction,
  set_pin_pull_mode,
}
use samlibs.Gpio.Pinmux.{Module}
use samlibs.System.Clocks.{Clocks, enable_peripheral_clock}
use samlibs.System.Eic.{Eic, enable_event, config_ext, get_gpio_eic_channel}
use samlibs.System.Events.{Evsys, EventConfig, event_init}
use samlibs.Counters.{Device, Board, Timer, CounterWidth, EventAction, width_to_mode, clock_module}

-- `CaptureConfig_t`.
pub record CaptureConfig : Type 0 where
  pub timer_module : Module
  pub gpio : ℕ
  pub pull : PullMode
  pub clksource : ℕ
  pub invert : Bool
  pub counter_width : CounterWidth
  pub event_config : EventConfig

-- `EIC_High`.
abbrev pub eic_high : ℕ
eic_high = 4

-- `sam_EICInit`, without the clocks.
abbrev pub eic_init : Eic → Eic
eic_init e = record e { enabled = true }

-- The fault stands for the shift by 32 bits or more in `sam_EICConfigExt`.
abbrev pub configured : Option Eic → Result Eic
configured none = fault Fault.out_of_range
configured (some e) = ok e

-- `pa08` is the number of pin PA08.
abbrev pub listen : Device → ℕ → CaptureConfig → Eic → Result Eic
listen d pa08 c e =
    let channel : ℕ = get_gpio_eic_channel d.pins pa08 c.gpio in
    configured (config_ext channel false false eic_high (eic_init (enable_event channel e)))

abbrev pub input_pin : Device → CaptureConfig → Ports → Result Ports
input_pin d c p = do
  p0 ← set_pin_function d.pins c.gpio 0 p
  p1 ← set_pin_direction d.pins c.gpio Direction.input p0
  set_pin_pull_mode d.pins c.gpio c.pull p1

-- CTRLA is 0 before the fields are written.
abbrev pub measuring : CaptureConfig → Timer → Timer
measuring c t = record t {
  is_enabled = true;
  mode = width_to_mode c.counter_width;
  capten0 = true;
  capten1 = true;
  copen0 = false;
  copen1 = false;
  div256 = true;
  evact = EventAction.ppw;
  tcinv = c.invert;
  tcei = true;
}

-- CTRLA of 0.
abbrev pub stopped : Timer → Timer
stopped t = record t {
  is_enabled = false;
  mode = 0;
  capten0 = false;
  capten1 = false;
  copen0 = false;
  copen1 = false;
  div256 = false;
}

abbrev pub clocked : Device → CaptureConfig → Board → Board
clocked d c b = record b { clocks = clock_module d c.timer_module c.clksource b.clocks }

-- The clocks that `sam_EICInit` and `xSamEventInit` add.
abbrev pub listening : Device → CaptureConfig → Clocks → Clocks
listening d c clocks =
    enable_peripheral_clock d.pack d.family Module.evsys
      (clock_module d Module.eic c.clksource (clock_module d c.timer_module c.clksource clocks))

pub init_ppw : Device → ℕ → CaptureConfig → Board → Result (Bool × Board)
init_ppw d pa08 c b =
    if b.timer.is_enabled
    then ok (false, b)
    else (if c.gpio == gpio_none
        then ok (false, record (clocked d c b) { timer = stopped b.timer })
        else (do
          ports ← input_pin d c b.ports
          eic ← listen d pa08 c b.eic
          ok (
            true,
            record {
              clocks = listening d c b.clocks;
              ports = ports;
              eic = eic;
              evsys = (event_init d.timers c.event_config b.evsys).1;
              timer = measuring c b.timer;
            },
          )))

-- `*period` and `*duty`, which stay as they are where the timer does not capture.
pub get_ppw : CaptureConfig → Timer → ℕ × ℕ → ℕ × ℕ
get_ppw c t old = from t.evact
  where
    from : EventAction → ℕ × ℕ
    from EventAction.ppw = (t.cc c.counter_width 0, t.cc c.counter_width 1)
    from EventAction.pwp = (t.cc c.counter_width 1, t.cc c.counter_width 0)
    from EventAction.another = old
