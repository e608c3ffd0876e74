-- ===== src/SpiShiftRegisters.antt =====
-- comm/devices/spi_shiftregisters.c: shift registers behind a SERCOM in SPI mode.
--
-- Writes to pins and registers are entries of a log, the newest last; DATA holds `miso k` at its
-- `k`th read. The pin of port A that the code raises and lowers beside CS is `marker`.
pub mod Transfer
pub mod Interrupt
mod Tests
use samlibs.Base.{
  ℕ, zero, suc, ◌+◌, ◌%◌, ◌^◌, List, [], ◌∷◌, ◌++◌, Bool, true, false, not, Option, none, some, ltb,
  if◌then◌else◌, Fault, Result, ok, fault, ◌>>=◌, load, store,
}
use samlibs.Sercom.{
  SercomDataOrder, gpio_to_pad, pad_to_dopo, pad_to_dipo, baudrate_to_register_synchronous,
  data_order_to_register,
}

pub data Field : Type 0 where
  dopo dipo mode form chsize dord mssen cpha cpol rxen enable : Field

pub data Action : Type 0 where
  enable_clocks await_txc clear_pending enable_module_interrupt notify_task : Action
  enable_rxc enable_dre enable_txc disable_rxc disable_dre disable_txc clear_txc : Action
  pin_function : ℕ → ℕ → Action
  direction_out : ℕ → Action
  pin_level : ℕ → Bool → Action
  write_field : Field → ℕ → Action
  write_pads : Field → Option ℕ → Action
  write_baud : ℕ → Action
  write_data : ℕ → Action

pub record SpiHardware : Type 0 where
  pub pin_mosi : ℕ
  pub pin_miso : ℕ
  pub pin_clk : ℕ
  pub pin_cs : ℕ
  pub pinmux_sercom : ℕ
  pub baud : ℕ

-- `SpiShiftRegistersConfig_t`, with the reads of DATA so far and the log.
pub record SpiShiftRegistersConfig : Type 0 where
  pub hw : SpiHardware
  pub data_order : SercomDataOrder
  pub is_init : Bool
  pub write_message : Option (List ℕ)
  pub read_message : Option (List ℕ)
  pub message_size : ℕ
  pub read_index : ℕ
  pub write_index : ℕ
  pub looks : ℕ
  pub has_task : Bool
  pub latch_high : Bool
  pub dre_enabled : Bool
  pub log : List Action

abbrev pub emits : List Action → SpiShiftRegistersConfig → SpiShiftRegistersConfig
emits actions s = record s { log = s.log ++ actions }

-- `xSpiRegistersInitHardware`, which always passes; `gpio_a` is the macro of the pins, `clock`
-- CONF_CPU_FREQUENCY.
pub init_hardware : (ℕ → ℕ) → ℕ → SpiShiftRegistersConfig → SpiShiftRegistersConfig
init_hardware gpio_a clock s =
    record (emits
      (Action.enable_clocks
        ∷ Action.pin_function s.hw.pin_mosi s.hw.pinmux_sercom
        ∷ Action.pin_function s.hw.pin_miso s.hw.pinmux_sercom
        ∷ Action.pin_function s.hw.pin_clk s.hw.pinmux_sercom
        ∷ Action.direction_out s.hw.pin_cs
        ∷ Action.pin_level s.hw.pin_cs true
        ∷ Action.write_pads Field.dopo
            (pad_to_dopo (gpio_to_pad gpio_a s.hw.pin_mosi) (gpio_to_pad gpio_a s.hw.pin_clk))
        ∷ Action.write_pads Field.dipo (pad_to_dipo (gpio_to_pad gpio_a s.hw.pin_miso))
        ∷ Action.write_field Field.mode 0x03
        ∷ Action.write_field Field.form 0x00
        ∷ Action.write_field Field.chsize 0x00
        ∷ Action.write_field Field.dord (data_order_to_register s.data_order)
        ∷ Action.write_field Field.mssen 0
        ∷ Action.write_baud (baudrate_to_register_synchronous clock s.hw.baud)
        ∷ Action.write_field Field.cpha 0
        ∷ Action.write_field Field.cpol 0
        ∷ Action.write_field Field.rxen 1
        ∷ Action.write_field Field.enable 1
        ∷ [])
      s) {
        read_message = none;
        write_message = none;
        read_index = 0;
        write_index = 0;
        is_init = true;
      }

-- The next byte to DATA.
pub send_next : Option (List ℕ) → SpiShiftRegistersConfig → Result SpiShiftRegistersConfig
send_next none s =
    ok (record (emits (Action.write_data 0x00 ∷ []) s) {
      write_index = (s.write_index + 1) % 2 ^ 32;
    })
send_next (some message) s = do
  v ← load message s.write_index
  ok (record (emits (Action.write_data v ∷ []) s) { write_index = (s.write_index + 1) % 2 ^ 32 })

-- The byte `v` from DATA.
pub take_next : Option (List ℕ) → ℕ → SpiShiftRegistersConfig → Result SpiShiftRegistersConfig
take_next none v s = ok (record s { read_index = (s.read_index + 1) % 2 ^ 32; looks = suc s.looks })
take_next (some message) v s = do
  message' ← store message s.read_index v
  ok (record s {
    read_message = some message';
    read_index = (s.read_index + 1) % 2 ^ 32;
    looks = suc s.looks;
  })

pub round : (ℕ → ℕ) → SpiShiftRegistersConfig → Result SpiShiftRegistersConfig
round miso s = do
  s1 ← take_next s.read_message (miso s.looks) (emits (Action.await_txc ∷ []) s)
  send_next s1.write_message s1

-- `do … while(currentWriteIndex < currentMessageSize)`, with fuel.
pub exchange : ℕ → (ℕ → ℕ) → SpiShiftRegistersConfig → Result SpiShiftRegistersConfig
exchange zero miso s = fault Fault.hangs
exchange (suc fuel) miso s = do
  s1 ← round miso s
  if ltb s1.write_index s1.message_size then exchange fuel miso s1 else ok s1

abbrev pub latch : ℕ → ℕ → List Action
latch marker cs =
    Action.pin_level marker false
    ∷ Action.pin_level cs false
    ∷ Action.pin_level cs true
    ∷ Action.pin_level marker true
    ∷ []

abbrev initialised : (ℕ → ℕ) → ℕ → SpiShiftRegistersConfig → SpiShiftRegistersConfig
initialised gpio_a clock s = if s.is_init then s else init_hardware gpio_a clock s

-- The transfer, on a configuration that is not NULL; `size` rounds are enough.
pub transfer :
    ℕ
    → (ℕ → ℕ)
    → Option (List ℕ)
    → Option (List ℕ)
    → ℕ
    → SpiShiftRegistersConfig
    → Result SpiShiftRegistersConfig
transfer marker miso write read size s = do
  s1 ← send_next write (record (emits (latch marker s.hw.pin_cs) s) {
    write_message = write;
    read_message = read;
    message_size = size;
    read_index = 0;
    write_index = 0;
  })
  s2 ← exchange (suc size) miso s1
  ok (emits (Action.await_txc ∷ latch marker s.hw.pin_cs) s2)

pub read_write_registers :
    (ℕ → ℕ)
    → ℕ
    → (ℕ → ℕ)
    → Option (List ℕ)
    → Option (List ℕ)
    → ℕ
    → Option SpiShiftRegistersConfig
    → Result (Option SpiShiftRegistersConfig)
read_write_registers gpio_a clock miso write read size none = ok none
read_write_registers gpio_a clock miso write read size (some s) = do
  s1 ← transfer (gpio_a 15) miso write read size (initialised gpio_a clock s)
  ok (some s1)
