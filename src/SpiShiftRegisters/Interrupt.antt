-- ===== src/SpiShiftRegisters/Interrupt.antt =====
-- The transfer that the interrupts carry out.
use samlibs.Base.{
  ℕ, zero, suc, ◌+◌, ◌%◌, ◌^◌, ◌≤◌, ◌<◌, ◌≡◌, refl, ap, ◌∙◌, List, [], ◌∷◌, ◌++◌, length,
  length-set, set, Bool, true, false, not, ◌&&◌, Option, none, some, ltb, leb, ltb→lt, if-both,
  if◌then◌else◌, Fault, Result, ok, fault, ◌>>=◌, load, store, store_lem, arith,
}
use samlibs.SpiShiftRegisters.{Action, SpiShiftRegistersConfig, emits}

-- The two levels of CS that latch the registers.
abbrev latch_edge : SpiShiftRegistersConfig → List Action
latch_edge s =
    Action.pin_level s.hw.pin_cs s.latch_high ∷ Action.pin_level s.hw.pin_cs (not s.latch_high) ∷ []

-- The next byte to DATA; without a message its index stands in for it.
pub write_next : Option (List ℕ) → SpiShiftRegistersConfig → Result SpiShiftRegistersConfig
write_next none s = ok (record (emits (Action.write_data (s.write_index % 2 ^ 8) ∷ []) s) {
  write_index = (s.write_index + 1) % 2 ^ 32;
})
write_next (some message) s = do
  v ← load message s.write_index
  ok (record (emits (Action.write_data v ∷ []) s) { write_index = (s.write_index + 1) % 2 ^ 32 })

-- `vSpiRegistersReadWriteRegistersAsync`, on a configuration that is initialised.
pub start_transfer :
    Option (List ℕ)
    → Option (List ℕ)
    → ℕ
    → Bool
    → SpiShiftRegistersConfig
    → Result SpiShiftRegistersConfig
start_transfer write read size has_task s = do
  s1 ←
      write_next write
        (record (emits
          (latch_edge s ++ (Action.clear_pending ∷ Action.enable_module_interrupt ∷ [])) s) {
            write_message = write;
            read_message = read;
            message_size = size;
            read_index = 0;
            write_index = 0;
            has_task = has_task;
          })
  ok (record (emits (Action.enable_rxc ∷ Action.enable_dre ∷ Action.disable_rxc ∷ []) s1) {
    dre_enabled = true;
  })

-- The end of the message, as the read index sees it.
abbrev announced : SpiShiftRegistersConfig → SpiShiftRegistersConfig
announced s =
    if leb s.message_size s.read_index && s.has_task
    then emits (Action.notify_task ∷ Action.disable_rxc ∷ []) s
    else s

pub take_byte : Option (List ℕ) → ℕ → SpiShiftRegistersConfig → Result SpiShiftRegistersConfig
take_byte none v s = ok (record s { read_index = (s.read_index + 1) % 2 ^ 32 })
take_byte (some message) v s = do
  message' ← store message s.read_index v
  ok (
      announced
        (record s { read_message = some message'; read_index = (s.read_index + 1) % 2 ^ 32 }))

-- `while(INTFLAG.bit.RXC)`, with the bytes that wait. Beyond the message the loop does not read
-- DATA, so that the flag stays set and the loop does not end.
pub rx_drain : List ℕ → SpiShiftRegistersConfig → Result SpiShiftRegistersConfig
rx_drain [] s = ok s
rx_drain (v ∷ vs) s =
    if ltb s.read_index s.message_size
    then (take_byte s.read_message v s >>= λ s1. rx_drain vs s1)
    else fault Fault.hangs

-- The loop on DRE, for as many rounds as its flag is set.
pub tx_fill : ℕ → SpiShiftRegistersConfig → Result SpiShiftRegistersConfig
tx_fill zero s = ok s
tx_fill (suc n) s =
    if not s.dre_enabled
    then ok s
    else if ltb s.write_index s.message_size
    then (write_next s.write_message s >>= λ s1. tx_fill n s1)
    else ok (record (emits (Action.disable_dre ∷ Action.enable_txc ∷ []) s) { dre_enabled = false })

-- The handler: the bytes that wait, the rounds of DRE, and TXC.
pub interrupt_handler : List ℕ → ℕ → Bool → SpiShiftRegistersConfig → Result SpiShiftRegistersConfig
interrupt_handler bytes rounds txc s = do
  s1 ← rx_drain bytes s
  s2 ← tx_fill rounds s1
  ok (if txc then emits (latch_edge s2 ++ (Action.clear_txc ∷ Action.disable_txc ∷ [])) s2 else s2)

announced_reading :
    (b : Bool) (s : SpiShiftRegistersConfig)
    → (s' : SpiShiftRegistersConfig) × ((if b
          then emits (Action.notify_task ∷ Action.disable_rxc ∷ []) s
          else s)
        ≡ s')
      × (s'.message_size ≡ s.message_size)
      × (s'.read_message ≡ s.read_message)
      × (s'.read_index ≡ s.read_index)
announced_reading true s = (_, refl, refl, refl, refl)
announced_reading false s = (_, refl, refl, refl, refl)

-- The loop on RXC does not end when more bytes wait than the message still takes: this is so for every
-- message with room for its size and every state of its index.
pub rx_drain_excess :
    (vs : List ℕ) (s : SpiShiftRegistersConfig) (read : List ℕ)
    → s.read_message ≡ some read
    → s.message_size ≤ length read
    → s.message_size < 2 ^ 32
    → s.read_index ≤ s.message_size
    → s.message_size < s.read_index + length vs
    → rx_drain vs s ≡ fault Fault.hangs
unfolding rx_drain take_byte
rx_drain_excess [] s read known fits small inside more = absurd (omega arith)
rx_drain_excess (v ∷ vs) s read known fits small inside more =
    if-both (λ r. r ≡ fault Fault.hangs) (ltb s.read_index s.message_size) _ _
      (λ e.
        let before : s.read_index < s.message_size = ltb→lt _ _ e in
        let after =
          announced_reading (leb s.message_size ((s.read_index + 1) % 2 ^ 32) && s.has_task) next in
        ap (λ o. take_byte o v s >>= λ s1. rx_drain vs s1) known
        ∙ ap (λ r. stored r >>= λ s1. rx_drain vs s1)
            (store_lem read s.read_index v (omega (arith, before)))
        ∙ ap (rx_drain vs) after.1
        ∙ rx_drain_excess vs after.0 (set read s.read_index v) after.3
            (omega (arith, after.2, length-set read s.read_index v, fits)) (omega (arith, after.2))
            (omega (arith, after.2, after.4, before))
            (omega (arith, after.2, after.4, before, more)))
      refl
  where
    next : SpiShiftRegistersConfig
    next = record s {
      read_message = some (set read s.read_index v);
      read_index = (s.read_index + 1) % 2 ^ 32;
    }

    stored : Result (List ℕ) → Result SpiShiftRegistersConfig
    stored r = r >>= λ m.
        ok
          (announced (record s { read_message = some m; read_index = (s.read_index + 1) % 2 ^ 32 }))
