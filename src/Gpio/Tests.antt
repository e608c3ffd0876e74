-- ===== src/Gpio/Tests.antt =====
-- Tests of the pins.
use samlibs.Base.{◌/◌, ◌%◌, ◌≡◌, refl, true, false, [], ◌∷◌, ok, fault, Fault, ◌>>=◌, arith}
use samlibs.Gpio.{
  Decoding, Direction, PullMode, Ports, set_pin_direction, set_pin_level, set_pin_fast,
  get_pin_level, toggle_pin_level_fast,
}
use samlibs.Gpio.Pinmux.{Family, Module, get_module_pinmux}
use samlibs.Gpio.Refinement.{Request, Refines, perform, perform-Refines}
use samlibs.Gpio.Level.{perform_all, get_pin_level-set_pin_level}

-- 32 pins a group, and four groups.
abbrev decoding : Decoding
decoding = record {
  port = λ gpio. gpio / 32;
  pin = λ gpio. gpio % 32;
  function_off = 0xFFFFFFFF;
  groups = 4;
}

abbrev reset : Ports
reset = record {
  dir = λ g n. false;
  out = λ g n. false;
  level = λ g n. false;
  inen = λ g n. false;
  pullen = λ g n. false;
  pmuxen = λ g n. false;
  pmuxe = λ g n. 0;
  pmuxo = λ g n. 0;
}

perform-Refines_example :
    (p' : Ports) × (perform decoding 37 (Request.function 3) reset ≡ ok p')
    × Refines decoding 37 (Request.function 3) reset p'
perform-Refines_example = perform-Refines decoding 37 (Request.function 3) reset (omega arith) refl

get_pin_level-set_pin_level_example :
    (do
      p1 ← set_pin_direction decoding 37 Direction.output reset
      p2 ← set_pin_level decoding 37 true p1
      p3 ←
          perform_all decoding
            ((5, Request.clear_fast) ∷ (69, Request.pull_mode PullMode.pull_down) ∷ [])
            p2
      get_pin_level decoding 37 p3)
    ≡ ok true
get_pin_level-set_pin_level_example =
    get_pin_level-set_pin_level decoding 37 true
      ((5, Request.clear_fast) ∷ (69, Request.pull_mode PullMode.pull_down) ∷ []) reset
      (omega arith) refl ((omega arith, refl, refl), ((omega arith, refl, refl), tt))

fast_without_pin : set_pin_fast decoding 0xFFFFFFFF reset ≡ fault Fault.out_of_range
unfolding set_pin_fast
fast_without_pin = refl

level_without_pin : get_pin_level decoding 0xFFFFFFFF reset ≡ ok false
unfolding get_pin_level
level_without_pin = refl

toggled_twice :
    (do
      p1 ← toggle_pin_level_fast decoding 40 reset
      p2 ← toggle_pin_level_fast decoding 40 p1
      ok (p2.out 1 8))
    ≡ ok false
unfolding toggle_pin_level_fast
toggled_twice = refl

pinmux_of_timers : get_module_pinmux decoding Family.samd51 8 (Module.tc 7) ≡ 4
unfolding get_module_pinmux
pinmux_of_timers = refl

pinmux_of_mac : get_module_pinmux decoding Family.samd51 8 Module.gmac ≡ 0xFFFFFFFF
unfolding get_module_pinmux
pinmux_of_mac = refl
