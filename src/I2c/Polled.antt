-- ===== src/I2c/Polled.antt =====
-- comm/i2c.c: an I2C master that polls.
--
-- Every loop that waits for the bus or a flag is one wait. What it ends with is the wire's, which
-- numbers the waits: the flag is seen, with the RXNACK of that moment, or never. A loop with
-- a timeout then returns, one without is the fault `hangs`. The wire also numbers what it puts in
-- DATA. Writes to registers are entries of a log, the newest last.
pub mod Bytes
pub mod Write
use samlibs.Base.{
  ℕ, zero, suc, ◌+◌, ◌-◌, ◌*◌, ◌/◌, ◌%◌, ◌^◌, List, [], ◌∷◌, ◌++◌, Bool, true, false, not,
  if◌then◌else◌, ltb, Fault, Result, ok, fault, ◌>>=◌, load, store,
}
use samlibs.I2c.Interrupt.{read_address, write_address_of}

pub data Answer : Type 0 where
  never : Answer
  ready : Bool → Answer

pub record Wire : Type 0 where
  pub answer_at : ℕ → Answer
  pub data_at : ℕ → ℕ

pub data Action : Type 0 where
  enable_clocks software_reset set_mode smart_mode set_timeouts clear_interrupts enable_master :
      Action
  bus_idle read_data : Action
  write_baud : ℕ → Action
  pin_function : ℕ → ℕ → Action
  ackact : ℕ → Action
  write_address : ℕ → Action
  write_data : ℕ → Action
  command : ℕ → Action

pub record Bus : Type 0 where
  pub waits : ℕ
  pub reads : ℕ
  pub rxnack : Bool
  pub log : List Action

abbrev pub emits : List Action → Bus → Bus
emits actions b = record b { log = b.log ++ actions }

-- A loop without a timeout.
abbrev pub awaited : Answer → Bus → Result Bus
awaited never b = fault Fault.hangs
awaited (ready nack) b = ok (record b { waits = suc b.waits; rxnack = nack })

abbrev pub await : Wire → Bus → Result Bus
await w b = awaited (w.answer_at b.waits) b

-- A loop with a timeout, and whether the flag was seen.
abbrev pub awaited_timed : Answer → Bus → Bool × Bus
awaited_timed never b = (false, record b { waits = suc b.waits })
awaited_timed (ready nack) b = (true, record b { waits = suc b.waits; rxnack = nack })

abbrev pub await_timed : Wire → Bus → Bool × Bus
await_timed w b = awaited_timed (w.answer_at b.waits) b

-- DATA, read into `v`.
abbrev pub receive : Wire → Bus → ℕ × Bus
receive w b = (w.data_at b.reads, record (emits (Action.read_data ∷ []) b) { reads = suc b.reads })

-- `i2cConfig_t`. The timeout stands in what the wire answers.
pub record I2cConfig : Type 0 where
  pub baudrate : ℕ
  pub pin_sda : ℕ
  pub pin_scl : ℕ
  pub pinmux : ℕ

-- `clock` is CONF_CPU_FREQUENCY, `in_mode` whether the module is an I2C master already.
pub master_init : ℕ → Bool → I2cConfig → Bus → Bus
master_init clock true c b = b
master_init clock false c b =
    emits
      (Action.enable_clocks
        ∷ Action.software_reset
        ∷ Action.set_mode
        ∷ Action.smart_mode
        ∷ Action.set_timeouts
        ∷ Action.write_baud ((clock / (2 * c.baudrate) + 2 ^ 32 - 1) % 2 ^ 32)
        ∷ Action.clear_interrupts
        ∷ Action.enable_master
        ∷ Action.bus_idle
        ∷ Action.pin_function c.pin_sda c.pinmux
        ∷ Action.pin_function c.pin_scl c.pinmux
        ∷ [])
      b

-- The result 0 is pdFALSE, too.
pub read_byte : Wire → ℕ → Bus → ℕ × Bus
read_byte w device b =
    let free : Bool × Bus = await_timed w (emits (Action.ackact 0 ∷ []) b) in
    if not free.0
    then (0, free.1)
    else (let there : Bool × Bus =
          await_timed w (emits (Action.write_address (read_address device) ∷ []) free.1) in
        if not there.0 then (0, there.1) else receive w (emits (Action.command 0x03 ∷ []) there.1))

-- ACKACT, the wait for the bus, and the address.
pub open_bus : Wire → ℕ → Bus → Result Bus
open_bus w address b = do
  b1 ← await w (emits (Action.ackact 0 ∷ []) b)
  ok (emits (Action.write_address address ∷ []) b1)

-- The index into the buffer, in the little-endian or the big-endian order.
abbrev pub index_of : Bool → ℕ → ℕ → ℕ
index_of true num i = num - i - 1
index_of false num i = i

-- The loop of the two `i2c_master_readBytes`, with `n` rounds left: the result, the buffer and
-- the bus.
pub read_loop : Wire → Bool → ℕ → ℕ → ℕ → List ℕ → Bus → Result (ℕ × List ℕ × Bus)
read_loop w be num zero i buf b = ok (i % 2 ^ 8, buf, b)
read_loop w be num (suc n) i buf b =
    if ltb (i + 1) num
    then (do
      let got : ℕ × Bus = receive w (emits (Action.ackact 0 ∷ []) b)
      buf' ← store buf (index_of be num i) got.0
      let more : Bool × Bus = await_timed w (emits (Action.command 0x02 ∷ []) got.1)
      if not more.0 then ok (0, buf', more.1) else read_loop w be num n (i + 1) buf' more.1)
    else (do
      let got : ℕ × Bus = receive w (emits (Action.ackact 1 ∷ Action.command 0x03 ∷ []) b)
      buf' ← store buf (index_of be num i) got.0
      ok (i % 2 ^ 8, buf', got.1))

pub read_bytes : Wire → Bool → ℕ → List ℕ → ℕ → Bus → Result (ℕ × List ℕ × Bus)
read_bytes w be device buf num b = do
  b1 ← open_bus w (read_address device) b
  b2 ← await w b1
  read_loop w be num num 0 buf b2

abbrev pub read_bytes_le : Wire → ℕ → List ℕ → ℕ → Bus → Result (ℕ × List ℕ × Bus)
read_bytes_le w device buf num b = read_bytes w false device buf num b

abbrev pub read_bytes_be : Wire → ℕ → List ℕ → ℕ → Bus → Result (ℕ × List ℕ × Bus)
read_bytes_be w device buf num b = read_bytes w true device buf num b

-- A byte written to DATA, and the wait behind it, with and without a timeout.
abbrev pub send : Wire → ℕ → Bus → Result Bus
send w v b = await w (emits (Action.write_data v ∷ []) b)

abbrev pub send_timed : Wire → ℕ → Bus → Bool × Bus
send_timed w v b = await_timed w (emits (Action.write_data v ∷ []) b)

abbrev pub stop : Bus → Bool × Bus
stop b = (true, emits (Action.command 0x03 ∷ []) b)

-- The bytes of an address, each behind a wait with a timeout, then a stop.
pub send_address : Wire → List ℕ → Bool × Bus → Bool × Bus
send_address w vs (false, b) = (false, b)
send_address w [] (true, b) = stop b
send_address w (v ∷ vs) (true, b) = send_address w vs (send_timed w v b)

pub write_addr_le : Wire → ℕ → ℕ → Bus → Result (Bool × Bus)
write_addr_le w device addr b = do
  b1 ← open_bus w (write_address_of device) b
  ok (send_address w (addr ∷ []) (await_timed w b1))

pub write_addr16_le : Wire → ℕ → ℕ → Bus → Result (Bool × Bus)
write_addr16_le w device addr b = do
  b1 ← open_bus w (write_address_of device) b
  ok (send_address w (addr % 2 ^ 8 ∷ addr / 2 ^ 8 % 2 ^ 8 ∷ []) (await_timed w b1))

-- The bytes in order, each with a wait without a timeout.
pub send_all : Wire → List ℕ → Bus → Result Bus
send_all w [] b = ok b
send_all w (v ∷ vs) b = do b1 ← send w v b; send_all w vs b1

-- The address of the device for writing, and the bytes `vs`.
pub open_with : Wire → ℕ → List ℕ → Bus → Result Bus
open_with w device vs b = do
  b1 ← open_bus w (write_address_of device) b
  b2 ← await w b1
  send_all w vs b2

pub write_addr16_be : Wire → ℕ → ℕ → Bus → Result (Bool × Bus)
write_addr16_be w device addr b = do
  b1 ← open_with w device (addr / 2 ^ 8 % 2 ^ 8 ∷ addr % 2 ^ 8 ∷ []) b
  ok (stop b1)

pub write_byte : Wire → ℕ → ℕ → ℕ → Bus → Result (Bool × Bus)
write_byte w device addr v b = do b1 ← open_with w device (addr ∷ v ∷ []) b; ok (stop b1)

-- `while(bytesSent < num)`, with `n` bytes left.
pub write_loop : Wire → Bool → List ℕ → ℕ → ℕ → ℕ → Bus → Result (Bool × Bus)
write_loop w be bytes num zero sent b = ok (stop b)
write_loop w be bytes num (suc n) sent b = do
  v ← load bytes (index_of be num sent)
  b1 ← send w v b
  if b1.rxnack then ok (false, b1) else write_loop w be bytes num n (sent + 1) b1

pub write_bytes_le : Wire → ℕ → ℕ → List ℕ → ℕ → Bus → Result (Bool × Bus)
write_bytes_le w device addr bytes num b = do
  b1 ← open_with w device (addr ∷ []) b
  write_loop w false bytes num num 0 b1

pub write_bytes16_le : Wire → ℕ → ℕ → List ℕ → ℕ → Bus → Result (Bool × Bus)
write_bytes16_le w device addr bytes num b = do
  b1 ← open_with w device (addr % 2 ^ 8 ∷ addr / 2 ^ 8 % 2 ^ 8 ∷ []) b
  write_loop w false bytes num num 0 b1

pub write_bytes16_be : Wire → ℕ → ℕ → List ℕ → ℕ → Bus → Result (Bool × Bus)
write_bytes16_be w device addr bytes num b = do
  b1 ← open_with w device (addr / 2 ^ 8 % 2 ^ 8 ∷ addr % 2 ^ 8 ∷ []) b
  write_loop w true bytes num num 0 b1
