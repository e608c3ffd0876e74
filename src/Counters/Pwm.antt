-- ===== src/Counters/Pwm.antt =====
-- counters/pwm.c.
pub mod Once
use samlibs.Base.{
  ℕ, Bool, true, false, ◌==◌, ◌||◌, ltb, if◌then◌else◌, Result, ok, ◌>>=◌, Option, none, some,
}
use samlibs.Gpio.{Ports}
use samlibs.Gpio.Pinmux.{Module}
use samlibs.Counters.{Device, Board, Timer, CounterWidth, width_to_mode, clock_module, output_pin}

-- `PwmConfig_t`, with the pins that are used.
pub record PwmConfig : Type 0 where
  pub timer_module : Module
  pub gpio_wo0 : ℕ
  pub gpio_wo1 : ℕ
  pub gpio_wo2 : ℕ
  pub gpio_wo3 : ℕ
  pub clksource : ℕ
  pub counter_width : CounterWidth

-- What follows the pins of a TC.
abbrev pub start_tc : Device → PwmConfig → Board → Ports → Bool × Board
start_tc d c b ports = (
  true,
  record b {
    clocks = clock_module d c.timer_module c.clksource b.clocks;
    ports = ports;
    timer = record b.timer {
      mode = width_to_mode c.counter_width;
      normal_pwm = true;
      is_enabled = true;
    };
  },
)

pub init_tc : Device → PwmConfig → Board → Result (Bool × Board)
init_tc d c b = if b.timer.is_enabled then ok (false, b) else (do
  p0 ← output_pin d c.timer_module c.gpio_wo0 b.ports
  p1 ← output_pin d c.timer_module c.gpio_wo1 p0
  ok (start_tc d c b p1))

abbrev pub start_tcc : Device → PwmConfig → Board → Ports → Bool × Board
start_tcc d c b ports = (
  true,
  record b {
    clocks = clock_module d c.timer_module c.clksource b.clocks;
    ports = ports;
    timer = record b.timer { normal_pwm = true; is_enabled = true };
  },
)

pub init_tcc : Device → PwmConfig → Board → Result (Bool × Board)
init_tcc d c b = if b.timer.is_enabled then ok (false, b) else (do
  p0 ← output_pin d c.timer_module c.gpio_wo0 b.ports
  p1 ← output_pin d c.timer_module c.gpio_wo1 p0
  p2 ← output_pin d c.timer_module c.gpio_wo2 p1
  p3 ← output_pin d c.timer_module c.gpio_wo3 p2
  ok (start_tcc d c b p3))

-- A compare register of a TC, in the view of the width.
pub get_pwm_compare_register_tc : PwmConfig → ℕ → Option (CounterWidth × ℕ)
get_pwm_compare_register_tc c channel =
    if channel == 0 || channel == 1 then some (c.counter_width, channel) else none

pub get_pwm_compare_register_tcc : ℕ → Option ℕ
get_pwm_compare_register_tcc channel = if ltb 5 channel then none else some channel
