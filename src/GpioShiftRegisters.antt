-- ===== src/GpioShiftRegisters.antt =====
-- comm/devices/gpio_shiftregisters.c: shift registers on four pins, without a SERCOM.
--
-- Writes to pins are entries of a log, the newest last; the input pin has the level `miso k` at
-- its `k`th look.
pub mod Exchange
mod Tests
use samlibs.Base.{
  ℕ, zero, suc, ◌+◌, ◌*◌, ◌/◌, ◌%◌, ◌^◌, List, [], ◌∷◌, ◌++◌, Bool, true, false, not, Option, none,
  some, is_some, ◌==◌, if◌then◌else◌, bit_or, Result, ok, ◌>>=◌, load, store,
}

pub record GpioShiftRegistersConfig : Type 0 where
  pub gpio_clk : ℕ
  pub gpio_mosi : ℕ
  pub gpio_miso : ℕ
  pub gpio_cs : ℕ
  pub is_init : Bool

pub data Action : Type 0 where
  function_off direction_out direction_in pull_up set_pin clear_pin : ℕ → Action
  pin_level : ℕ → Bool → Action

-- `true` is pdPASS.
pub init : Option GpioShiftRegistersConfig → Bool × Option GpioShiftRegistersConfig × List Action
init none = (false, none, [])
init (some c) = (
  true,
  some (record c { is_init = true }),
  Action.function_off c.gpio_clk
      ∷ Action.pin_level c.gpio_clk false
      ∷ Action.direction_out c.gpio_clk
      ∷ Action.function_off c.gpio_mosi
      ∷ Action.direction_out c.gpio_mosi
      ∷ Action.function_off c.gpio_miso
      ∷ Action.direction_in c.gpio_miso
      ∷ Action.pull_up c.gpio_miso
      ∷ Action.function_off c.gpio_cs
      ∷ Action.pin_level c.gpio_cs true
      ∷ Action.direction_out c.gpio_cs
      ∷ [],
)

-- The looks at the input so far, and the log.
pub record Lines : Type 0 where
  pub looks : ℕ
  pub log : List Action

abbrev pub level : Bool → ℕ
level true = 1
level false = 0

-- `(txByte & 1<<b) != 0`
abbrev pub has_bit : ℕ → ℕ → Bool
has_bit tx b = (tx / 2 ^ b) % 2 == 1

abbrev pub clock : GpioShiftRegistersConfig → Bool → List Action
clock c out =
    Action.pin_level c.gpio_mosi out ∷ Action.set_pin c.gpio_clk ∷ Action.clear_pin c.gpio_clk ∷ []

-- The loop on the bits of a byte, with those below `b` to go; the counter is a `uint8_t` and ends
-- the loop when it wraps around.
pub shift_bits : GpioShiftRegistersConfig → (ℕ → Bool) → ℕ → ℕ → ℕ → Lines → ℕ × Lines
shift_bits c miso tx zero rx lines = (rx, lines)
shift_bits c miso tx (suc b) rx lines =
    shift_bits c miso tx b (bit_or ((rx * 2) % 2 ^ 8) (level (miso lines.looks)))
      (record { looks = suc lines.looks; log = lines.log ++ clock c (has_bit tx b) })

abbrev pub tx_byte : Option (List ℕ) → ℕ → Result ℕ
tx_byte none i = ok 0xFF
tx_byte (some message) i = load message i

abbrev pub rx_byte : Option (List ℕ) → ℕ → ℕ → Result (Option (List ℕ))
rx_byte none i v = ok none
rx_byte (some message) i v = do message' ← store message i v; ok (some message')

-- The loop on the bytes, with those below `n` to go.
pub shift_bytes :
    GpioShiftRegistersConfig
    → (ℕ → Bool)
    → Option (List ℕ)
    → ℕ
    → Option (List ℕ)
    → Lines
    → Result (Option (List ℕ) × Lines)
shift_bytes c miso write zero read lines = ok (read, lines)
shift_bytes c miso write (suc n) read lines = do
  tx ← tx_byte write n
  let shifted : ℕ × Lines = shift_bits c miso tx 8 0 lines
  read' ← rx_byte read n shifted.0
  shift_bytes c miso write n read' shifted.1

abbrev pub pulse : Bool → List Action → Lines → Lines
pulse on actions lines = if on then record lines { log = lines.log ++ actions } else lines

pub push :
    Option GpioShiftRegistersConfig
    → (ℕ → Bool)
    → Option (List ℕ)
    → Option (List ℕ)
    → ℕ
    → Lines
    → Result (Bool × Option (List ℕ) × Lines)
push none miso write read size lines = ok (false, read, lines)
push (some c) miso write read size lines = if not c.is_init then ok (false, read, lines) else (do
  shifted ←
      shift_bytes c miso write size read
        (pulse (is_some read) (Action.clear_pin c.gpio_cs ∷ Action.set_pin c.gpio_cs ∷ []) lines)
  ok (
    true,
    shifted.0,
    pulse (is_some write) (Action.set_pin c.gpio_cs ∷ Action.clear_pin c.gpio_cs ∷ []) shifted.1,
  ))
