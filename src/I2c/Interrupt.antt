-- ===== src/I2c/Interrupt.antt =====
-- comm/i2c_interrupt.c: an I2C master whose interrupts carry out one transaction of a queue after
-- the other.
--
-- Writes to registers and notifications are entries of a log, the newest last. The transaction
-- that `pxCurrentTransaction` points to is `current`; `pcData` is `Option (List ℕ)`, NULL or the
-- memory it points to.
pub mod Write
pub mod Read
pub mod Again
use samlibs.Base.{
  ℕ, zero, suc, ◌+◌, ◌-◌, ◌*◌, ◌/◌, ◌%◌, ◌^◌, List, [], ◌∷◌, ◌++◌, Bool, true, false, ◌==◌, Option,
  none, some, ltb, leb, if◌then◌else◌, bit_and, bit_or, Fault, Result, ok, fault, ◌>>=◌, deref,
  load, store,
}

pub data I2CTransactionType : Type 0 where
  write read writeread : I2CTransactionType

pub data I2CState : Type 0 where
  idle write_register write_data read_data : I2CState

pub data I2CmCmd : Type 0 where
  no_action ack_start ack_read ack_stop : I2CmCmd

pub data I2CmError : Type 0 where
  no_error arb_lost bus_error no_slave : I2CmError

pub record I2CTransaction : Type 0 where
  pub device_address : ℕ
  pub register_address : ℕ
  pub data_bytes : Option (List ℕ)
  pub data_length : ℕ
  pub data_counter : ℕ
  pub transaction_type : I2CTransactionType
  pub success : Bool
  pub big_endian : Bool

pub data Action : Type 0 where
  enable_clocks software_reset clear_interrupts enable_master clear_mb clear_sb clear_error : Action
  bus_idle error_off enable_mb enable_sb enable_mb_vector enable_sb_vector notify_requester : Action
  set_mode set_timeouts set_priorities disable_master : Action
  write_baud : ℕ → Action
  pin_function : ℕ → ℕ → Action
  write_address : ℕ → Action
  write_data : ℕ → Action
  ackact : ℕ → Action
  command : I2CmCmd → Action
  notify_overwrite : I2CmError → Action
  notify_bits : I2CmError → Action

-- `I2CInterruptConfig_t`, as far as the routines read it.
pub record I2CInterruptConfig : Type 0 where
  pub baudrate : ℕ
  pub pin_sda : ℕ
  pub pin_scl : ℕ
  pub pinmux : ℕ
  pub current : Option I2CTransaction
  pub state : I2CState
  pub log : List Action

abbrev pub emits : List Action → I2CInterruptConfig → I2CInterruptConfig
emits actions s = record s { log = s.log ++ actions }

-- `| I2C_READMASK` and `& ~I2C_READMASK`, on a `uint8_t`.
abbrev pub read_address : ℕ → ℕ
read_address a = bit_or a 0x01

abbrev pub write_address_of : ℕ → ℕ
write_address_of a = bit_and a 0xFE

-- The flags of STATUS that the routine tests.
pub record Status : Type 0 where
  pub buserr : Bool
  pub arblost : Bool
  pub rxnack : Bool

abbrev stop_with : I2CmError → I2CInterruptConfig → I2CInterruptConfig
stop_with e s = emits (Action.notify_overwrite e ∷ Action.command I2CmCmd.ack_stop ∷ []) s

abbrev after_register : I2CTransactionType → I2CState → I2CState
after_register I2CTransactionType.write state = I2CState.write_data
after_register I2CTransactionType.writeread state = I2CState.read_data
after_register I2CTransactionType.read state = state

pub write_next : I2CTransaction → I2CInterruptConfig → Result I2CInterruptConfig
write_next t s =
    if ltb t.data_counter t.data_length
    then (do
      memory ← deref t.data_bytes
      byte ← load memory t.data_counter
      ok (record (emits (Action.write_data byte ∷ []) s) {
        current = some (record t { data_counter = (t.data_counter + 1) % 2 ^ 8 });
      }))
    else ok (emits (Action.notify_overwrite I2CmError.no_error ∷ []) s)

-- The `switch` of the routine, on a transaction `t`.
pub mb_switch : I2CState → I2CTransaction → I2CInterruptConfig → Result I2CInterruptConfig
mb_switch I2CState.write_register t s =
    ok (record (emits (Action.write_data t.register_address ∷ []) s) {
      current = some (record t { data_counter = 0 });
      state = after_register t.transaction_type s.state;
    })
mb_switch I2CState.read_data t s =
    ok (emits (Action.write_address (read_address t.device_address) ∷ []) s)
mb_switch I2CState.write_data t s = write_next t s
mb_switch I2CState.idle t s = ok (emits (Action.command I2CmCmd.ack_stop ∷ []) s)

abbrev is_idle : I2CState → Bool
is_idle I2CState.idle = true
is_idle _ = false

-- `vI2cInterruptMBRoutine`. The idle state alone does not read the transaction.
pub mb_routine : Status → I2CInterruptConfig → Result I2CInterruptConfig
mb_routine f s =
    let s1 : I2CInterruptConfig = emits (Action.clear_mb ∷ []) s in
    if f.buserr
    then ok (stop_with I2CmError.bus_error s1)
    else if f.arblost
    then ok (stop_with I2CmError.arb_lost s1)
    else if f.rxnack
    then ok (stop_with I2CmError.no_slave s1)
    else if is_idle s.state
    then ok (emits (Action.command I2CmCmd.ack_stop ∷ []) s1)
    else (do t ← deref s.current; mb_switch s.state t s1)

-- `pcData[i]`, for an index `length - counter` that is negative where the counter is the greater.
abbrev pub store_back : List ℕ → ℕ → ℕ → ℕ → Result (List ℕ)
store_back memory size counter byte =
    if ltb size counter then fault Fault.out_of_range else store memory (size - counter) byte

-- The byte in DATA, stored in the order of the transaction; the counter is 8 bits.
pub store_byte : ℕ → I2CTransaction → Result I2CTransaction
store_byte byte t =
    let counter = (t.data_counter + 1) % 2 ^ 8 in
    (do
      memory ← deref t.data_bytes
      memory' ←
          if t.big_endian
          then store_back memory t.data_length counter byte
          else store memory t.data_counter byte
      ok (record t { data_bytes = some memory'; data_counter = counter }))

-- The answer to a byte, by whether more are to come.
abbrev pub answer : Bool → List Action
answer true = Action.ackact 0 ∷ Action.command I2CmCmd.ack_read ∷ []
answer false =
    Action.ackact 1 ∷ Action.command I2CmCmd.ack_stop ∷ Action.notify_bits I2CmError.no_error ∷ []

-- `vI2cInterruptSBRoutine`, with the byte in DATA.
pub sb_routine : ℕ → I2CInterruptConfig → Result I2CInterruptConfig
sb_routine byte s = do
  t ← deref s.current
  t' ← store_byte byte t
  ok (record (emits (Action.clear_sb ∷ answer (ltb t'.data_counter t'.data_length)) s) {
    current = some t';
  })

pub error_routine : I2CInterruptConfig → I2CInterruptConfig
error_routine s =
    emits (Action.bus_idle ∷ Action.clear_error ∷ Action.notify_bits I2CmError.bus_error ∷ []) s

abbrev first_state : I2CTransactionType → I2CState
first_state I2CTransactionType.write = I2CState.write_register
first_state I2CTransactionType.read = I2CState.read_data
first_state I2CTransactionType.writeread = I2CState.write_register

abbrev pub opening : I2CTransactionType → ℕ → List Action
opening I2CTransactionType.read a =
    Action.enable_sb
    ∷ Action.error_off
    ∷ Action.enable_mb_vector
    ∷ Action.enable_sb_vector
    ∷ Action.write_address (read_address a)
    ∷ []
opening _ a =
    Action.enable_mb
    ∷ Action.enable_sb
    ∷ Action.error_off
    ∷ Action.enable_mb_vector
    ∷ Action.enable_sb_vector
    ∷ Action.write_address (write_address_of a)
    ∷ []

-- What the task does with a transaction of the queue, up to its wait.
pub begin : I2CTransaction → I2CInterruptConfig → I2CInterruptConfig
begin t s =
    record (emits (Action.ackact 0 ∷ Action.bus_idle ∷ opening t.transaction_type t.device_address)
      s) { current = some (record t { success = false }); state = first_state t.transaction_type }

abbrev pub is_success : Option I2CmError → Bool
is_success (some I2CmError.no_error) = true
is_success _ = false

-- After the wait, with the notification, or none at the timeout.
pub finish : Option I2CmError → I2CInterruptConfig → Result I2CInterruptConfig
finish n s = do
  t ← deref s.current
  ok (record (emits (Action.notify_requester ∷ []) s) {
    current = some (record t { success = is_success n });
  })

-- The loop of `vI2cInterruptTask` on the transactions of its queue. `wait` is the effect of the
-- interrupts while the task waits, and the notification; the result lists the transactions as
-- their tasks find them.
pub serve :
    (I2CInterruptConfig → Result (Option I2CmError × I2CInterruptConfig))
    → List I2CTransaction
    → I2CInterruptConfig
    → Result (List (Option I2CTransaction) × I2CInterruptConfig)
serve wait [] s = ok ([], s)
serve wait (t ∷ ts) s = do
  waited ← wait (begin t s)
  s1 ← finish waited.0 waited.1
  rest ← serve wait ts s1
  ok (s1.current ∷ rest.0, rest.1)

-- What `vI2cInterruptTask` does before its loop; `clock` is CONF_CPU_FREQUENCY.
pub start_task : ℕ → I2CInterruptConfig → I2CInterruptConfig
start_task clock s =
    record (emits
      (Action.enable_clocks
        ∷ Action.software_reset
        ∷ Action.set_mode
        ∷ Action.set_timeouts
        ∷ Action.write_baud ((clock / (2 * s.baudrate) + 2 ^ 32 - 1) % 2 ^ 32)
        ∷ Action.clear_interrupts
        ∷ Action.pin_function s.pin_sda s.pinmux
        ∷ Action.pin_function s.pin_scl s.pinmux
        ∷ Action.set_priorities
        ∷ Action.enable_master
        ∷ [])
      s) { state = I2CState.idle }

pub disable : I2CInterruptConfig → I2CInterruptConfig
disable s = emits (Action.disable_master ∷ []) s

pub enable : I2CInterruptConfig → I2CInterruptConfig
enable s = emits (Action.enable_master ∷ []) s
