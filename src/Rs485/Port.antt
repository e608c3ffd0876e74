-- ===== src/Rs485/Port.antt =====
-- The types of rs485.h, the registers that rs485.c drives, `xRs485Init` and the link LED.
--
-- A pointer to bytes is `Option (List ℕ)`, NULL or the memory it points to. Writes are entries of
-- a log, the newest last; the interrupt enables that the handler reads back are fields. The
-- positions of the flags in INTENSET and INTENCLR are the device pack's, and fields of
-- `Rs485Config` here.
use samlibs.Base.{
  ℕ, ◌/◌, ◌%◌, ◌^◌, List, [], ◌∷◌, ◌++◌, Bool, true, false, not, ◌||◌, ◌&&◌, Option, none, some,
  ◌==◌, if◌then◌else◌, replicate,
}
use samlibs.Sercom.{
  SercomPads, SercomDataOrder, SercomParity, gpio_to_pad, pad_to_rxpo, data_order_to_register,
  parity_to_frame_format, parity_to_register,
}

abbrev pub rs485_addressmask : ℕ
rs485_addressmask = 0x0100

-- The values of `SercomCharacterSize_e`.
abbrev pub char_9bit : ℕ
char_9bit = 1

pub record Rs485Config : Type 0 where
  pub has_module : Bool
  pub rxpin : ℕ
  pub txpin : ℕ
  pub dirpin : ℕ
  pub pinmux : ℕ
  pub ledpin : ℕ
  pub ledinv : Bool
  pub baudrate : ℕ
  pub data_order : SercomDataOrder
  pub parity : SercomParity
  pub stop_bits : ℕ
  pub character_size : ℕ
  pub guard_time : ℕ
  pub use_interrupt : Bool
  pub dre_pos : ℕ
  pub txc_pos : ℕ

pub data Field : Type 0 where
  enable txpo rxpo rxen txen baud dord cmode ibon form mode pmode sbmode chsize gtime : Field

pub data Action : Type 0 where
  enable_peripheral_clock enable_gclk_channel enable_rxc enable_error enable_module_interrupt
        read_data :
      Action
  clear_status clear_error clear_txc await_txc await_dre notify_task : Action
  write_field : Field → ℕ → Action
  write_data : ℕ → Action
  write_intenset : ℕ → Action
  write_intenclr : ℕ → Action
  pin_function : ℕ → ℕ → Action
  pin_function_off : ℕ → Action
  pull_up : ℕ → Action
  pin_direction_out : ℕ → Action
  set_pin : ℕ → Action
  clear_pin : ℕ → Action
  queue_send : Option (List ℕ) → Action

-- `Rs485Status_t` with its configuration and registers; `txTask` stands in `notify_task`.
pub record Rs485Status : Type 0 where
  pub config : Option Rs485Config
  pub tx_buffer : Option (List ℕ)
  pub tx_buffer_size : ℕ
  pub tx_buffer_index : ℕ
  pub rx_buffer : Option (List ℕ)
  pub rx_buffer_size : ℕ
  pub rx_buffer_index : ℕ
  pub has_rx_queue : Bool
  pub dre_enabled : Bool
  pub txc_enabled : Bool
  pub log : List Action

abbrev pub emit : Action → Rs485Status → Rs485Status
emit a s = record s { log = s.log ++ (a ∷ []) }

abbrev pub has_bit : ℕ → ℕ → Bool
has_bit v pos = (v / 2 ^ pos) % 2 == 1

-- `INTENCLR.reg = v` and `INTENSET.reg = v`.
unfoldable pub clear_interrupts : Rs485Config → ℕ → Rs485Status → Rs485Status
clear_interrupts c v s = record (emit (Action.write_intenclr v) s) {
  dre_enabled = s.dre_enabled && not (has_bit v c.dre_pos);
  txc_enabled = s.txc_enabled && not (has_bit v c.txc_pos);
}

unfoldable pub set_interrupts : Rs485Config → ℕ → Rs485Status → Rs485Status
set_interrupts c v s = record (emit (Action.write_intenset v) s) {
  dre_enabled = s.dre_enabled || has_bit v c.dre_pos;
  txc_enabled = s.txc_enabled || has_bit v c.txc_pos;
}

-- `SERCOM_USART_INTENCLR_TXC || SERCOM_USART_INTENCLR_DRE`: the logical or of two masks that are
-- not 0.
abbrev pub txc_or_dre : ℕ
txc_or_dre = 1

abbrev is_pad : SercomPads → SercomPads → Bool
is_pad SercomPads.pad0 SercomPads.pad0 = true
is_pad SercomPads.pad2 SercomPads.pad2 = true
is_pad _ _ = false

-- What `xRs485Init` writes once the pins are known to be good.
pub init_frame : (ℕ → ℕ) → Rs485Config → ℕ → List Action
init_frame arithmetic c pending =
    (Action.pin_direction_out c.ledpin
      ∷ Action.write_field Field.baud (arithmetic c.baudrate)
      ∷ Action.write_field Field.dord (data_order_to_register c.data_order)
      ∷ Action.write_field Field.cmode 0
      ∷ Action.write_field Field.ibon 1
      ∷ Action.write_field Field.form (parity_to_frame_format c.parity)
      ∷ Action.write_field Field.mode 0x01
      ∷ Action.write_field Field.pmode (parity_to_register c.parity)
      ∷ Action.write_field Field.sbmode c.stop_bits
      ∷ Action.write_field Field.chsize c.character_size
      ∷ Action.write_field Field.gtime c.guard_time
      ∷ [])
    ++ ((if c.use_interrupt then Action.enable_module_interrupt ∷ [] else [])
        ++ (replicate pending Action.read_data
            ++ (Action.enable_error ∷ Action.write_field Field.enable 1 ∷ [])))

pub init_receiver : (ℕ → ℕ) → Rs485Config → ℕ → Option ℕ → Bool × List Action
init_receiver arithmetic c pending none = (false, [])
init_receiver arithmetic c pending (some rxbit) = (
  true,
  (Action.write_field Field.rxpo rxbit
        ∷ Action.pin_function c.rxpin c.pinmux
        ∷ Action.pull_up c.rxpin
        ∷ Action.write_field Field.rxen 1
        ∷ Action.enable_rxc
        ∷ [])
      ++ init_frame arithmetic c pending,
)

abbrev prepend : List Action → Bool × List Action → Bool × List Action
prepend before (r, after) = (r, before ++ after)

-- `xRs485Init`: pdPASS or pdFAIL, and the writes. `gpio_a` is the macro of the pins, `gpio_none`
-- its GPIO_NONE, `arithmetic` the rate in floating point, and `pending` the number of characters
-- that the receiver holds when it is emptied.
pub init : (ℕ → ℕ) → ℕ → (ℕ → ℕ) → ℕ → Option Rs485Config → Bool × List Action
init gpio_a gpio_none arithmetic pending none = (false, [])
init gpio_a gpio_none arithmetic pending (some c) =
    if not c.has_module
    then (false, [])
    else if c.txpin == gpio_none || (c.rxpin == gpio_none || c.dirpin == gpio_none)
    then (false, Action.enable_peripheral_clock ∷ Action.enable_gclk_channel ∷ [])
    else if not (is_pad (gpio_to_pad gpio_a c.txpin) SercomPads.pad0)
        || not (is_pad (gpio_to_pad gpio_a c.dirpin) SercomPads.pad2)
    then (
      false,
      Action.enable_peripheral_clock
          ∷ Action.enable_gclk_channel
          ∷ Action.write_field Field.enable 0
          ∷ [],
    )
    else prepend
        (Action.enable_peripheral_clock
          ∷ Action.enable_gclk_channel
          ∷ Action.write_field Field.enable 0
          ∷ Action.write_field Field.txpo 0x03
          ∷ Action.pin_function c.txpin c.pinmux
          ∷ Action.pull_up c.txpin
          ∷ Action.pin_function c.dirpin c.pinmux
          ∷ [])
        (init_receiver arithmetic c pending (pad_to_rxpo (gpio_to_pad gpio_a c.rxpin)))

pub set_link_led : Option Rs485Config → List Action
set_link_led none = []
set_link_led (some c) =
    if c.ledinv then Action.clear_pin c.ledpin ∷ [] else Action.set_pin c.ledpin ∷ []

pub clear_link_led : Option Rs485Config → List Action
clear_link_led none = []
clear_link_led (some c) =
    if c.ledinv then Action.set_pin c.ledpin ∷ [] else Action.clear_pin c.ledpin ∷ []
