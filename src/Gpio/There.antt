-- ===== src/Gpio/There.antt =====
-- The accesses of gpio/samgpio.c to a pin that the device has.
use samlibs.Base.{ℕ, true, ◌==◌, ok, ◌≡◌, Bool-cases, inl, inr}
use samlibs.Gpio.{
  Decoding, Ports, Direction, PullMode, gpio_none, is_there, guarded, set_pin_function,
  set_pin_direction, set_pin_pull_mode,
}

guarded_ok :
    (d : Decoding) (gpio : ℕ) (p q : Ports)
    → is_there d gpio ≡ true
    → (p' : Ports) × (guarded d gpio p q ≡ ok p')
guarded_ok d gpio p q there = elim (Bool-cases (gpio == gpio_none)) [
  | inl e ↦ (p, rw (e))
  | inr e ↦ (q, rw (e) (rw (there)))
]

pub set_pin_function_ok :
    (d : Decoding) (gpio function : ℕ) (p : Ports)
    → is_there d gpio ≡ true
    → (p' : Ports) × (set_pin_function d gpio function p ≡ ok p')
unfolding set_pin_function
set_pin_function_ok d gpio function p there = guarded_ok d gpio p _ there

pub set_pin_direction_ok :
    (d : Decoding) (gpio : ℕ) (direction : Direction) (p : Ports)
    → is_there d gpio ≡ true
    → (p' : Ports) × (set_pin_direction d gpio direction p ≡ ok p')
unfolding set_pin_direction
set_pin_direction_ok d gpio direction p there = guarded_ok d gpio p _ there

pub set_pin_pull_mode_ok :
    (d : Decoding) (gpio : ℕ) (mode : PullMode) (p : Ports)
    → is_there d gpio ≡ true
    → (p' : Ports) × (set_pin_pull_mode d gpio mode p ≡ ok p')
unfolding set_pin_pull_mode
set_pin_pull_mode_ok d gpio mode p there = guarded_ok d gpio p _ there
