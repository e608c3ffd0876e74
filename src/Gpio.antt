-- ===== src/Gpio.antt =====
-- gpio/samgpio.c: the pins.
--
-- A register of a port group is a function of the bit, the groups are numbered: `out g n` is bit `n`
-- of OUT in group `g`. hpl_gpio.h, which the build supplies, decodes a pin's number; what it gives
-- is a `Decoding`. An access behind the last group or the last pin is a fault.
pub mod Refinement
pub mod Level
pub mod There
pub mod Pinmux
mod Tests
use samlibs.Base.{
  ℕ, ◌/◌, ◌%◌, ◌^◌, Bool, true, false, ◌&&◌, if◌then◌else◌, ltb, ◌==◌, Fault, Result, ok, fault,
}

-- GPIO_PORT, GPIO_PIN, GPIO_PIN_FUNCTION_OFF and the number of groups of the device.
pub record Decoding : Type 0 where
  pub port : ℕ → ℕ
  pub pin : ℕ → ℕ
  pub function_off : ℕ
  pub groups : ℕ

-- `enum gpio_direction`, and any other value.
pub data Direction : Type 0 where
  off input output : Direction
  unsupported : Direction

-- `enum gpio_pull_mode`, and any other value.
pub data PullMode : Type 0 where
  pull_off pull_up pull_down : PullMode
  pull_unsupported : PullMode

pub record Ports : Type 0 where
  pub dir : ℕ → ℕ → Bool
  pub out : ℕ → ℕ → Bool
  pub level : ℕ → ℕ → Bool
  pub inen : ℕ → ℕ → Bool
  pub pullen : ℕ → ℕ → Bool
  pub pmuxen : ℕ → ℕ → Bool
  pub pmuxe : ℕ → ℕ → ℕ
  pub pmuxo : ℕ → ℕ → ℕ

abbrev pub gpio_none : ℕ
gpio_none = 0xFFFFFFFF

abbrev pub group_of : Decoding → ℕ → ℕ
group_of d gpio = d.port gpio % 2 ^ 8

abbrev pub pin_of : Decoding → ℕ → ℕ
pin_of d gpio = d.pin gpio % 2 ^ 8

abbrev pub write {ℓ} : {A : Type ℓ} → (ℕ → ℕ → A) → ℕ → ℕ → A → ℕ → ℕ → A
write f g n v i j = if i == g && j == n then v else f i j

-- The pin's registers exist.
abbrev pub is_there : Decoding → ℕ → Bool
is_there d gpio = ltb (group_of d gpio) d.groups && ltb (pin_of d gpio) 32

abbrev pub access {ℓ} : {A : Type ℓ} → Decoding → ℕ → A → Result A
access d gpio v = if is_there d gpio then ok v else fault Fault.out_of_range

-- `if(gpio == GPIO_NONE) return;`
abbrev pub guarded : Decoding → ℕ → Ports → Ports → Result Ports
guarded d gpio p p' = if gpio == gpio_none then ok p else access d gpio p'

abbrev pub select_function : ℕ → ℕ → ℕ → Ports → Ports
select_function g n function p =
    if n % 2 == 1
    then record p {
      pmuxen = write p.pmuxen g n true;
      pmuxo = write p.pmuxo g (n / 2) (function % 16);
    }
    else record p {
      pmuxen = write p.pmuxen g n true;
      pmuxe = write p.pmuxe g (n / 2) (function % 16);
    }

unfoldable pub set_pin_function : Decoding → ℕ → ℕ → Ports → Result Ports
set_pin_function d gpio function p = guarded d gpio p (
    if function == d.function_off
    then record p { pmuxen = write p.pmuxen (group_of d gpio) (pin_of d gpio) false }
    else select_function (group_of d gpio) (pin_of d gpio) function p)

abbrev pub direct : ℕ → ℕ → Direction → Ports → Ports
direct g n off p = record p {
  dir = write p.dir g n false;
  inen = write p.inen g n false;
  pullen = write p.pullen g n false;
}
direct g n input p = record p { dir = write p.dir g n false; inen = write p.inen g n true }
direct g n output p = record p { dir = write p.dir g n true; inen = write p.inen g n false }
direct g n unsupported p = p

unfoldable pub set_pin_direction : Decoding → ℕ → Direction → Ports → Result Ports
set_pin_direction d gpio direction p =
    guarded d gpio p (direct (group_of d gpio) (pin_of d gpio) direction p)

-- OUTSET or OUTCLR.
abbrev pub drive : Decoding → ℕ → Bool → Ports → Ports
drive d gpio level p = record p { out = write p.out (group_of d gpio) (pin_of d gpio) level }

unfoldable pub set_pin_level : Decoding → ℕ → Bool → Ports → Result Ports
set_pin_level d gpio level p = guarded d gpio p (drive d gpio level p)

pub set_pin_level_fast : Decoding → ℕ → Bool → Ports → Result Ports
set_pin_level_fast d gpio level p = access d gpio (drive d gpio level p)

pub set_pin_fast : Decoding → ℕ → Ports → Result Ports
set_pin_fast d gpio p = access d gpio (drive d gpio true p)

pub clear_pin_fast : Decoding → ℕ → Ports → Result Ports
clear_pin_fast d gpio p = access d gpio (drive d gpio false p)

pub toggle_pin_level_fast : Decoding → ℕ → Ports → Result Ports
toggle_pin_level_fast d gpio p =
    access d gpio (drive d gpio (if p.out (group_of d gpio) (pin_of d gpio) then false else true) p)

abbrev pub pull : ℕ → ℕ → PullMode → Ports → Ports
pull g n pull_off p = record p { pullen = write p.pullen g n false }
pull g n pull_up p = record p { pullen = write p.pullen g n true; out = write p.out g n true }
pull g n pull_down p = record p { pullen = write p.pullen g n true; out = write p.out g n false }
pull g n pull_unsupported p = p

pub set_pin_pull_mode : Decoding → ℕ → PullMode → Ports → Result Ports
set_pin_pull_mode d gpio mode p = guarded d gpio p (pull (group_of d gpio) (pin_of d gpio) mode p)

pub get_pin_level_fast : Decoding → ℕ → Ports → Result Bool
get_pin_level_fast d gpio p = access d gpio (
    if p.inen (group_of d gpio) (pin_of d gpio)
    then p.level (group_of d gpio) (pin_of d gpio)
    else p.out (group_of d gpio) (pin_of d gpio))

pub get_pin_level : Decoding → ℕ → Ports → Result Bool
unfolding get_pin_level_fast
get_pin_level d gpio p = if gpio == gpio_none then ok false else get_pin_level_fast d gpio p
