-- ===== src/Counters.antt =====
-- counters/pwm.c and counters/samcapture.c: timers that give out and that measure pulses.
--
-- The functions reach the clocks, the pins, the external interrupts and the events through their
-- modules, whose states are the record `Board`. A pointer to a compare register is its view of the
-- timer and its number. The values of WAVEGEN and EVACT, and the prescaler, are the device pack's.
pub mod Pwm
pub mod Capture
mod Tests
use samlibs.Base.{ℕ, Bool, true, false, ◌==◌, if◌then◌else◌, Result, ok, ◌>>=◌}
use samlibs.Gpio.{Decoding, Ports, gpio_none, set_pin_function}
use samlibs.Gpio.Pinmux.{Family, Module, get_module_pinmux}
use samlibs.System.Clocks.{Pack, Clocks, enable_peripheral_clock, enable_gclk_channel}
use samlibs.System.Eic.{Eic}
use samlibs.System.Events.{Evsys}

-- `PWMCounterWidth_t`.
pub data CounterWidth : Type 0 where
  count16 count8 count32 : CounterWidth

abbrev pub width_to_mode : CounterWidth → ℕ
width_to_mode count16 = 0
width_to_mode count8 = 1
width_to_mode count32 = 2

-- The actions of a timer on an event that the code tells apart.
pub data EventAction : Type 0 where
  ppw pwp another : EventAction

-- The registers of a TC, or of a TCC, of which only ENABLE and WAVEGEN are written. `cc` is CC in each
-- view.
pub record Timer : Type 0 where
  pub is_enabled : Bool
  pub mode : ℕ
  pub normal_pwm : Bool
  pub capten0 : Bool
  pub capten1 : Bool
  pub copen0 : Bool
  pub copen1 : Bool
  pub div256 : Bool
  pub evact : EventAction
  pub tcinv : Bool
  pub tcei : Bool
  pub cc : CounterWidth → ℕ → ℕ

pub record Board : Type 0 where
  pub clocks : Clocks
  pub ports : Ports
  pub eic : Eic
  pub evsys : Evsys
  pub timer : Timer

-- The device: the pack, the decoding of the pins, the family, the number of TC modules.
pub record Device : Type 0 where
  pub pack : Pack
  pub pins : Decoding
  pub family : Family
  pub timers : ℕ

-- `samclk_enable_gclk_channel` and `samclk_enable_peripheral_clock`.
abbrev pub clock_module : Device → Module → ℕ → Clocks → Clocks
clock_module d m clksource c =
    enable_peripheral_clock d.pack d.family m (enable_gclk_channel d.pack d.family m clksource c)

-- `if(gpio != GPIO_NONE)` with the function of the module.
abbrev pub output_pin : Device → Module → ℕ → Ports → Result Ports
output_pin d m gpio p =
    if gpio == gpio_none
    then ok p
    else set_pin_function d.pins gpio (get_module_pinmux d.pins d.family d.timers m) p
