-- ===== src/Sercom.antt =====
-- comm/sercom.c: the tables between pads, pins and register fields, and the baud rates.
-- `GPIO(GPIO_PORTA, n)` is a macro of the device pack, the parameter `gpio_a`; the core clock
-- CONF_CPU_FREQUENCY is the application's, the parameter `clock`. A result of -1 is `none`.
-- `eSercomGPIOToPad` has a body for the SAMC20 alone; that is the one modelled.
pub mod Pads
pub mod Baud
mod Tests
use samlibs.Base.{
  ℕ, ◌+◌, ◌-◌, ◌*◌, ◌/◌, ◌%◌, ◌^◌, List, [], ◌∷◌, Bool, true, false, ◌||◌, Option, none, some, ◌==◌,
  if◌then◌else◌,
}

pub data SercomPads : Type 0 where
  padnone pad0 pad1 pad2 pad3 : SercomPads

pub data SercomDataOrder : Type 0 where
  msb_first lsb_first : SercomDataOrder

pub data SercomParity : Type 0 where
  even_parity odd_parity no_parity : SercomParity

-- Whether `x` is one of the labels.
abbrev pub is_case : (ℕ → ℕ) → List ℕ → ℕ → Bool
is_case gpio_a [] x = false
is_case gpio_a (n ∷ ns) x = x == gpio_a n || is_case gpio_a ns x

unfoldable pub gpio_to_pad : (ℕ → ℕ) → ℕ → SercomPads
gpio_to_pad gpio_a gpio =
    if is_case gpio_a (0 ∷ 4 ∷ 8 ∷ 16 ∷ 22 ∷ []) gpio
    then SercomPads.pad0
    else if is_case gpio_a (1 ∷ 5 ∷ 9 ∷ 17 ∷ 23 ∷ []) gpio
    then SercomPads.pad1
    else if is_case gpio_a (6 ∷ 10 ∷ 14 ∷ 18 ∷ 24 ∷ 30 ∷ []) gpio
    then SercomPads.pad2
    else if is_case gpio_a (7 ∷ 11 ∷ 15 ∷ 19 ∷ 25 ∷ 31 ∷ []) gpio
    then SercomPads.pad3
    else SercomPads.padnone

unfoldable pub pad_to_rxpo : SercomPads → Option ℕ
pad_to_rxpo SercomPads.pad0 = some 0
pad_to_rxpo SercomPads.pad1 = some 1
pad_to_rxpo SercomPads.pad2 = some 2
pad_to_rxpo SercomPads.pad3 = some 3
pad_to_rxpo SercomPads.padnone = none

unfoldable pub pad_to_txpo : SercomPads → Option ℕ
pad_to_txpo SercomPads.pad0 = some 0
pad_to_txpo SercomPads.pad2 = some 1
pad_to_txpo _ = none

pub pad_to_dipo : SercomPads → Option ℕ
pad_to_dipo pad = pad_to_rxpo pad

-- The argument is an `int8_t`; -1 is `none` here, too.
pub dopo_to_dipo : Option ℕ → Option ℕ
dopo_to_dipo none = none
dopo_to_dipo (some dopo) =
    if dopo == 0
    then some 3
    else if dopo == 1
    then some 0
    else if dopo == 2
    then some 0
    else if dopo == 3
    then some 2
    else none

pub pad_to_dopo : SercomPads → SercomPads → Option ℕ
pad_to_dopo SercomPads.pad0 SercomPads.pad1 = some 0
pad_to_dopo SercomPads.pad0 SercomPads.pad3 = some 3
pad_to_dopo SercomPads.pad0 _ = none
pad_to_dopo SercomPads.pad1 _ = none
pad_to_dopo SercomPads.pad2 _ = some 1
pad_to_dopo SercomPads.pad3 _ = some 2
pad_to_dopo SercomPads.padnone SercomPads.pad1 = some 0
pad_to_dopo SercomPads.padnone SercomPads.pad3 = some 1
pad_to_dopo SercomPads.padnone _ = none

-- The result is a `uint8_t`. Division by zero, at a rate of 0, is undefined in C.
pub baudrate_to_register_synchronous : ℕ → ℕ → ℕ
baudrate_to_register_synchronous clock baudrate =
    (clock / ((2 * baudrate) % 2 ^ 32) + 2 ^ 32 - 1) % 2 ^ 8

-- BAUD is the field of 13 bits and FP that of the 3 bits above it. The product with 8 is taken
-- in 32 bits.
pub baudrate_to_register_fractional : ℕ → ℕ → ℕ
baudrate_to_register_fractional clock baudrate =
    let times8 = ((clock * 8) % 2 ^ 32) / ((16 * baudrate) % 2 ^ 32) in
    (times8 / 8) % 2 ^ 13 + (times8 % 8) * 2 ^ 13

pub data_order_to_register : SercomDataOrder → ℕ
data_order_to_register SercomDataOrder.lsb_first = 1
data_order_to_register SercomDataOrder.msb_first = 0

pub parity_to_frame_format : SercomParity → ℕ
parity_to_frame_format SercomParity.no_parity = 0x00
parity_to_frame_format SercomParity.even_parity = 0x01
parity_to_frame_format SercomParity.odd_parity = 0x01

pub parity_to_register : SercomParity → ℕ
parity_to_register SercomParity.odd_parity = 0x01
parity_to_register _ = 0x00
