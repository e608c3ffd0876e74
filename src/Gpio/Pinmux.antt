-- ===== src/Gpio/Pinmux.antt =====
-- gpio/samgpio.c: the function number of a module's pins.
use samlibs.Base.{ℕ, Bool, true, false, if◌then◌else◌, ltb}
use samlibs.Gpio.{Decoding}

-- The device families that `samgpio_getModulePinmux` has a table for.
pub data Family : Type 0 where
  same54 same53 samd51 samc20 : Family

pub data Module : Type 0 where
  eic dac ac ccl gmac ptc evsys : Module
  adc tc tcc sercom : ℕ → Module
  other : Module

abbrev has_mac : Family → Bool
has_mac same54 = true
has_mac same53 = true
has_mac samd51 = false
has_mac samc20 = false

abbrev module_if : Bool → ℕ → ℕ → ℕ
module_if present off f = if present then f else off

-- `timers` is the number of TC modules that the device has.
abbrev pinmux_x5x : ℕ → Family → ℕ → Module → ℕ
pinmux_x5x off family timers eic = 0
pinmux_x5x off family timers (adc n) = module_if (ltb n 2) off 1
pinmux_x5x off family timers dac = 1
pinmux_x5x off family timers ac = 1
pinmux_x5x off family timers (tc n) = module_if (ltb n timers) off 4
pinmux_x5x off family timers (tcc n) = module_if (ltb n 4) off 5
pinmux_x5x off family timers ccl = 13
pinmux_x5x off family timers gmac = module_if (has_mac family) off 11
pinmux_x5x off family timers ptc = off
pinmux_x5x off family timers evsys = off
pinmux_x5x off family timers (sercom n) = off
pinmux_x5x off family timers other = off

abbrev pinmux_c20 : ℕ → Module → ℕ
pinmux_c20 off eic = 0
pinmux_c20 off (adc n) = module_if (ltb n 2) off 1
pinmux_c20 off dac = 1
pinmux_c20 off ac = 1
pinmux_c20 off (tc n) = module_if (ltb n 5) off 4
pinmux_c20 off (tcc n) = off
pinmux_c20 off ccl = 8
pinmux_c20 off gmac = off
pinmux_c20 off ptc = 1
pinmux_c20 off evsys = off
pinmux_c20 off (sercom n) = off
pinmux_c20 off other = off

unfoldable pub get_module_pinmux : Decoding → Family → ℕ → Module → ℕ
get_module_pinmux d samc20 timers m = pinmux_c20 d.function_off m
get_module_pinmux d family timers m = pinmux_x5x d.function_off family timers m
