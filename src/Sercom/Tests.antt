-- ===== src/Sercom/Tests.antt =====
-- Tests of the tables and rates.
use samlibs.Base.{◌≡◌, refl, some}
use samlibs.Sercom.{
  SercomPads, gpio_to_pad, pad_to_txpo, pad_to_dopo, baudrate_to_register_fractional,
}

-- Pin 22 of port A is the first pad.
gpio_22 : gpio_to_pad (λ n. n) 22 ≡ SercomPads.pad0
unfolding gpio_to_pad
gpio_22 = refl

txpo_2 : pad_to_txpo SercomPads.pad2 ≡ some 1
unfolding pad_to_txpo
txpo_2 = refl

-- A clock of 48 MHz: DMX at 250 kBd divides by 12, MIDI at 31250 Bd by 96.
dmx_rate : baudrate_to_register_fractional 48000000 250000 ≡ 12
unfolding baudrate_to_register_fractional
dmx_rate = refl

pads_0_3 : pad_to_dopo SercomPads.pad0 SercomPads.pad3 ≡ some 3
unfolding pad_to_dopo
pads_0_3 = refl
