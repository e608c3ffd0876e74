-- ===== src/Dmx/Setup.antt =====
-- The pins, the USART and the task of dmx.c: `vDmxSetupPins`, `xDmxInitSercom`, `vDmxSwapRxTxPins` and
-- `vDmxTask`.
--
-- The pins are those of Gpio; the pads of a pin are those of the SAMC20, by the macro `gpio_a` of the
-- device pack. The wait for the end of the software reset ends, and after it all registers of the
-- USART are 0.
pub mod Ready
pub mod Swap
mod Tests
use samlibs.Base.{
  ℕ, List, [], ◌∷◌, ◌++◌, Bool, true, false, not, Option, none, some, ◌==◌, if◌then◌else◌, Result,
  ok, ◌>>=◌, replicate, drop,
}
use samlibs.Gpio.{
  Decoding, Direction, Ports, gpio_none, set_pin_function, set_pin_direction, set_pin_level,
  toggle_pin_level_fast,
}
use samlibs.Sercom.{gpio_to_pad, pad_to_rxpo, pad_to_txpo}
use samlibs.System.Clocks.{Pack, Clocks, enable_peripheral_clock, enable_gclk_channel}
use samlibs.System.Interrupts.{Lines, Nvic, enable_module_interrupt, set_module_interrupt_priority}
use samlibs.Dmx.Port.{DmxBuffer, DmxState, DmxActivity, DmxPort, dmx_buffering, dmx_max_slots}
use samlibs.Dmx.Buffers.{get_next_buffer}

-- The fields of `DmxPortHardware_t` that only these functions read.
pub record Wiring : Type 0 where
  pub rxpin : ℕ
  pub dirpin : ℕ
  pub ledpin : ℕ
  pub ledinv : Bool
  pub priority : ℕ
  pub clock_module : samlibs.Gpio.Pinmux.Module
  pub irq_module : samlibs.System.Interrupts.Module

-- The device; `arithmetic` is `ulSercomBaudrateToRegisterArithmetic`.
pub record Device : Type 0 where
  pub pins : Decoding
  pub gpio_a : ℕ → ℕ
  pub pack : Pack
  pub family : samlibs.Gpio.Pinmux.Family
  pub lines : Lines
  pub irq_family : samlibs.System.Interrupts.Family
  pub arithmetic : ℕ → ℕ

-- The registers of the USART.
pub record Usart : Type 0 where
  pub is_enabled : Bool
  pub rxpo : ℕ
  pub txpo : ℕ
  pub rxen : Bool
  pub txen : Bool
  pub baud : ℕ
  pub dord : ℕ
  pub form : ℕ
  pub sampr : ℕ
  pub sampa : ℕ
  pub mode : ℕ
  pub pmode : ℕ
  pub sbmode : ℕ
  pub chsize : ℕ
  pub rxc_enabled : Bool

pub record Wired : Type 0 where
  pub usart : Usart
  pub ports : Ports

abbrev pub connect_rx : Device → ℕ → ℕ → Option ℕ → Wired → Result Wired
connect_rx d pin pinmux none w = ok w
connect_rx d pin pinmux (some bit) w = do
  ports ← set_pin_function d.pins pin pinmux w.ports
  ok (record { usart = record w.usart { rxpo = bit; rxen = true }; ports = ports })

abbrev pub connect_tx : Device → ℕ → ℕ → Option ℕ → Wired → Result Wired
connect_tx d pin pinmux none w = ok w
connect_tx d pin pinmux (some bit) w = do
  ports ← set_pin_function d.pins pin pinmux w.ports
  ok (record { usart = record w.usart { txpo = bit; txen = true }; ports = ports })

abbrev pub receive_pin : Device → ℕ → ℕ → Wired → Result Wired
receive_pin d pin pinmux w =
    if pin == gpio_none
    then ok w
    else connect_rx d pin pinmux (pad_to_rxpo (gpio_to_pad d.gpio_a pin)) w

abbrev pub transmit_pin : Device → ℕ → ℕ → Wired → Result Wired
transmit_pin d pin pinmux w =
    if pin == gpio_none
    then ok w
    else connect_tx d pin pinmux (pad_to_txpo (gpio_to_pad d.gpio_a pin)) w

abbrev pub direction_pin : Device → ℕ → Wired → Result Wired
direction_pin d pin w = if pin == gpio_none then ok w else (do
  low ← set_pin_level d.pins pin false w.ports
  out ← set_pin_direction d.pins pin Direction.output low
  ok (record w { ports = out }))

-- The arguments: rxpin, txpin, pinmux, dirpin.
pub setup_pins : Device → ℕ → ℕ → ℕ → ℕ → Wired → Result Wired
setup_pins d rxpin txpin pinmux dirpin w =
    if w.usart.is_enabled
    then ok w
    else (if pinmux == 0 then ok w else (do
      w1 ← receive_pin d rxpin pinmux w
      w2 ← transmit_pin d txpin pinmux w1
      direction_pin d dirpin w2))

-- After the software reset, up to the pins; 250000 is DMX_BAUDRATE.
abbrev pub reset_usart : Device → Usart
reset_usart d = record {
  is_enabled = false;
  rxpo = 0;
  txpo = 0;
  rxen = false;
  txen = false;
  baud = d.arithmetic 250000;
  dord = 1;
  form = 0;
  sampr = 0;
  sampa = 3;
  mode = 1;
  pmode = 0;
  sbmode = 1;
  chsize = 0;
  rxc_enabled = false;
}

abbrev pub cleared : DmxBuffer
cleared = record {
  dmx = replicate 513 0;
  slot_count = 0;
  read = false;
  written = false;
  valid = false;
}

-- `memset(config->rxBuffers, 0, …)`; the frames of the application lie behind.
abbrev pub clear_buffers : List DmxBuffer → List DmxBuffer
clear_buffers bs = replicate dmx_buffering cleared ++ drop dmx_buffering bs

-- The fields of the port that `xDmxInitSercom` assigns. INTENCLR of 0xFF switches DRE and TXC off.
pub ready : DmxPort → DmxPort
ready p =
    let next : Option ℕ × List DmxBuffer = get_next_buffer (clear_buffers p.buffers) in
    record p {
      rx_state = DmxState.idle;
      tx_state = DmxState.idle;
      buffers = next.1;
      current_rx = next.0;
      current_tx = none;
      last_valid_rx = none;
      dre_enabled = false;
      txc_enabled = false;
    }

-- What the port shares with the rest of the device.
pub record Machine : Type 0 where
  pub port : DmxPort
  pub wired : Wired
  pub clocks : Clocks
  pub nvic : Nvic

-- The LED is driven against its inversion.
abbrev pub light : Device → Wiring → Ports → Result Ports
light d w p = do
  out ← set_pin_direction d.pins w.ledpin Direction.output p
  set_pin_level d.pins w.ledpin (not w.ledinv) out

abbrev pub finish : Device → Wiring → Machine → Wired → Ports → Machine
finish d w m wired ports = record {
  port = ready m.port;
  wired = record {
    usart = record wired.usart { rxc_enabled = true; is_enabled = true };
    ports = ports;
  };
  clocks =
      enable_gclk_channel d.pack d.family w.clock_module 0
        (enable_peripheral_clock d.pack d.family w.clock_module m.clocks);
  nvic =
      enable_module_interrupt d.lines d.irq_family w.irq_module
        (set_module_interrupt_priority d.lines d.irq_family w.irq_module w.priority m.nvic);
}

-- `true` is pdPASS. The task that is created is `task_round`, over and over.
pub init_sercom : Device → Wiring → Machine → Result (Bool × Machine)
unfolding setup_pins
init_sercom d w m = if not m.port.hw.has_module then ok (false, m) else (do
  wired ←
      setup_pins d w.rxpin m.port.hw.txpin m.port.hw.pinmux w.dirpin
        (record m.wired { usart = reset_usart d })
  ports ← light d w wired.ports
  ok (true, finish d w m wired ports))

-- The pin that both directions are given.
abbrev pub shared_pin : Bool → Wiring → DmxPort → ℕ
shared_pin swap w p = if swap then p.hw.txpin else w.rxpin

pub swap_rx_tx_pins : Device → Wiring → DmxPort → Bool → Wired → Result Wired
unfolding setup_pins
swap_rx_tx_pins d w p swap wired = if not p.hw.has_module then ok wired else (do
  w1 ← setup_pins d (shared_pin swap w p) (shared_pin swap w p) p.hw.pinmux w.dirpin (record wired {
    usart = record wired.usart { is_enabled = false; rxen = false; txen = false };
  })
  ok (record w1 { usart = record w1.usart { is_enabled = true } }))

-- The pin of the LED by what went on since the last round.
abbrev pub blink : Device → Wiring → DmxActivity → Ports → Result Ports
blink d w DmxActivity.dmx p = toggle_pin_level_fast d.pins w.ledpin p
blink d w DmxActivity.rdm p = toggle_pin_level_fast d.pins w.ledpin p
blink d w DmxActivity.idle p = set_pin_level d.pins w.ledpin (not w.ledinv) p

-- A round of `vDmxTask`, behind its delay.
pub task_round : Device → Wiring → DmxPort → Ports → Result (DmxPort × Ports)
task_round d w p ports = do
  ports1 ← blink d w p.activity ports
  ok (record p { activity = DmxActivity.idle }, ports1)
