-- ===== src/Dmx/Setup/Tests.antt =====
-- Tests of the setup of a port.
use samlibs.Base.{
  ℕ, ◌+◌, ◌/◌, ◌%◌, ◌<◌, ◌≡◌, refl, List, [], ◌∷◌, true, false, none, some, ◌==◌, replicate, All,
  All-replicate, Result, ok, arith, ◌>>=◌,
}
use samlibs.Gpio.{set_pin_function, set_pin_direction, set_pin_level, Ports}
use samlibs.Sercom.{gpio_to_pad, pad_to_rxpo, pad_to_txpo, SercomPads}
use samlibs.Dmx.Port.{DmxBuffer, DmxState, DmxActivity, DmxPort, Callbacks, Received}
use samlibs.Dmx.Receive.{rx_loop}
use samlibs.Dmx.Receive.Safety.{IsValid, Keeps}
use samlibs.Dmx.Setup.{
  Device, Wiring, Wired, Machine, cleared, init_sercom, setup_pins, swap_rx_tx_pins, reset_usart,
}
use samlibs.Dmx.Setup.Ready.{init_sercom-rx_loop}
use samlibs.Dmx.Setup.Swap.{swap_shares_pad}

abbrev device : Device
device = record {
  pins = record { port = λ g. g / 32; pin = λ g. g % 32; function_off = 255; groups = 2 };
  gpio_a = λ n. n;
  pack = record {
    mask = λ m j. j == 2;
    core_id = λ m. 19;
    slow_id = λ m. 18;
    num_sercoms = 4;
    num_timers = 5;
    has_gmac = false;
  };
  family = samlibs.Gpio.Pinmux.Family.samc20;
  lines = record {
    sercom_irq = λ n. 9 + n;
    tc_irq = λ n. 20 + n;
    non_maskable = 100;
    num_sercoms = 4;
  };
  irq_family = samlibs.System.Interrupts.Family.samc20;
  arithmetic = λ rate. 60293;
}

abbrev wiring : Wiring
wiring = record {
  rxpin = 9;
  dirpin = 20;
  ledpin = 3;
  ledinv = false;
  priority = 2;
  clock_module = samlibs.Gpio.Pinmux.Module.sercom 0;
  irq_module = samlibs.System.Interrupts.Module.sercom 0;
}

-- The buffers hold what was there before.
abbrev used : DmxBuffer
used = record cleared { slot_count = 7; read = true; written = true }

abbrev port : DmxPort
port = record {
  hw = record { has_module = true; txpin = 8; pinmux = 2 };
  rx_state = DmxState.slots;
  tx_state = DmxState.slots;
  current_tx_slot = 4;
  break_byte_count = 0;
  buffers = used ∷ used ∷ used ∷ [];
  current_rx = none;
  last_valid_rx = some 1;
  current_tx = some 2;
  activity = DmxActivity.dmx;
  dre_enabled = true;
  txc_enabled = true;
  log = [];
}

abbrev ports : Ports
ports = record {
  dir = λ g n. false;
  out = λ g n. false;
  level = λ g n. false;
  inen = λ g n. false;
  pullen = λ g n. false;
  pmuxen = λ g n. false;
  pmuxe = λ g n. 0;
  pmuxo = λ g n. 0;
}

abbrev machine : Machine
machine = record {
  port = port;
  wired = record { usart = reset_usart device; ports = ports };
  clocks = record {
    bus_mask = λ b j. false;
    generator = λ n. false;
    pchctrl = λ i. record { gen = 0; is_enabled = false; is_locked = false };
  };
  nvic = record { enabled = λ n. false; pending = λ n. false; priority = λ n. 0 };
}

abbrev result : {A : Type 0} → A → Result A → A
result d (ok a) = a
result d (samlibs.Base.fault g) = d

abbrev after : Machine
after = (result (false, machine) (init_sercom device wiring machine)).1

abbrev no_callbacks : Callbacks
no_callbacks = record { new_rx_frame = none; new_rdm_message = none; has_byte_received = false }

Keeps-refl : (bs : List DmxBuffer) → Keeps ⊥ bs bs
Keeps-refl [] = tt
Keeps-refl (b ∷ bs) = (refl, refl, samlibs.Base.inr refl, Keeps-refl bs)

abbrev zero_byte : Received
zero_byte = record { byte = 0; bufovf = false; ferr = true; pin_low = true }

init_sercom-rx_loop_example :
    (p : DmxPort) × (rx_loop no_callbacks (zero_byte ∷ []) after.port ≡ ok p) × IsValid ⊥ p
unfolding init_sercom setup_pins set_pin_function set_pin_direction set_pin_level gpio_to_pad
    pad_to_rxpo pad_to_txpo
init_sercom-rx_loop_example =
    init_sercom-rx_loop device wiring machine after no_callbacks (zero_byte ∷ []) refl tt
      (λ b bs. (Keeps-refl bs, Keeps-refl bs)) (omega arith)

-- The pins swapped: pad 0 receives what it sends.
abbrev swapped : Wired
swapped = result machine.wired (swap_rx_tx_pins device wiring port true after.wired)

swap_shares_pad_example :
    (pad : SercomPads) × (pad_to_rxpo pad ≡ some swapped.usart.rxpo)
    × (pad_to_txpo pad ≡ some swapped.usart.txpo)
unfolding init_sercom swap_rx_tx_pins setup_pins set_pin_function set_pin_direction set_pin_level
    gpio_to_pad pad_to_rxpo pad_to_txpo
swap_shares_pad_example =
    swap_shares_pad device wiring port true after.wired swapped refl refl refl refl
