-- ===== src/Rs485/Interrupt.antt =====
-- `vRs485InterruptHandler`.
pub mod Receive
pub mod Message
pub mod Safety
use samlibs.Base.{
  ℕ, zero, suc, ◌+◌, ◌/◌, ◌%◌, ◌^◌, List, [], ◌∷◌, ◌++◌, Bool, true, false, ◌&&◌, Option, none,
  some, ◌==◌, ltb, leb, if◌then◌else◌, Result, ok, fault, ◌>>=◌, load, store,
}
use samlibs.Rs485.Port.{
  Action, Field, Rs485Config, Rs485Status, emit, clear_interrupts, set_interrupts, txc_or_dre,
}

-- The rounds of the loop on the flag ERROR.
pub error_loop : ℕ → Rs485Status → Rs485Status
error_loop zero s = s
error_loop (suc n) s = error_loop n (emit Action.clear_error (emit Action.clear_status s))

-- `temp & RS485_ADDRESSMASK`
abbrev pub is_address : ℕ → Bool
is_address temp = (temp / 2 ^ 8) % 2 == 1

abbrev pub rx_reset : ℕ → Rs485Status → Rs485Status
rx_reset temp s = if is_address temp then record s { rx_buffer_index = 0 } else s

pub rx_store : ℕ → Option (List ℕ) → Rs485Status → Result Rs485Status
rx_store temp none s = ok s
rx_store temp (some buffer) s =
    if ltb s.rx_buffer_index s.rx_buffer_size
    then (do
      buffer' ← store buffer s.rx_buffer_index (temp % 2 ^ 8)
      ok (record s {
        rx_buffer = some buffer';
        rx_buffer_index = (s.rx_buffer_index + 1) % 2 ^ 16;
      }))
    else ok s

pub rx_deliver : Rs485Status → Rs485Status
rx_deliver s =
    if s.rx_buffer_index == s.rx_buffer_size
    then record s {
      rx_buffer_index = (s.rx_buffer_index + 1) % 2 ^ 16;
      log = if s.has_rx_queue then s.log ++ (Action.queue_send s.rx_buffer ∷ []) else s.log;
    }
    else s

-- One round of the loop on the flag RXC; `temp` is the 9 bits of DATA.
pub rx_char : ℕ → Rs485Status → Result Rs485Status
rx_char temp s = do
  s1 ← rx_store temp (rx_reset temp s).rx_buffer (rx_reset temp s)
  ok (rx_deliver s1)

pub rx_loop : List ℕ → Rs485Status → Result Rs485Status
rx_loop [] s = ok s
rx_loop (c ∷ cs) s = rx_char c s >>= λ s'. rx_loop cs s'

pub tx_next : Option (List ℕ) → Rs485Status → Result Rs485Status
tx_next none s = ok s
tx_next (some buffer) s =
    if ltb s.tx_buffer_index s.tx_buffer_size
    then (do
      byte ← load buffer s.tx_buffer_index
      ok (record (emit (Action.write_data byte) s) {
        tx_buffer_index = (s.tx_buffer_index + 1) % 2 ^ 16;
      }))
    else ok s

pub tx_last : Rs485Config → Rs485Status → Rs485Status
tx_last c s =
    if leb s.tx_buffer_size s.tx_buffer_index
    then set_interrupts c (2 ^ c.txc_pos) (clear_interrupts c (2 ^ c.dre_pos) s)
    else s

-- The branch on DRE and that on TXC, once their flags and enables are set.
pub tx_empty : Rs485Config → Rs485Status → Result Rs485Status
tx_empty c s = do s1 ← tx_next s.tx_buffer s; ok (tx_last c s1)

pub tx_complete : Rs485Config → Rs485Status → Rs485Status
tx_complete c s =
    let s1 : Rs485Status = emit Action.clear_txc s in
    if leb s.tx_buffer_size s.tx_buffer_index
    then emit Action.notify_task (
        emit (Action.pin_function c.rxpin c.pinmux)
          (emit (Action.write_field Field.txen 0) (clear_interrupts c txc_or_dre s1)))
    else s1

-- The flags of INTFLAG that the handler finds: the rounds of ERROR, the characters, DRE and TXC.
pub record Flags : Type 0 where
  pub errors : ℕ
  pub chars : List ℕ
  pub dre : Bool
  pub txc : Bool

pub handle : Rs485Config → Flags → Rs485Status → Result Rs485Status
handle c f s = do
  s1 ← rx_loop f.chars (error_loop f.errors s)
  s2 ← if f.dre && s1.dre_enabled then tx_empty c s1 else ok s1
  ok (if f.txc && s2.txc_enabled then tx_complete c s2 else s2)

abbrev pub handle_with : Option Rs485Config → Flags → Rs485Status → Result Rs485Status
handle_with none f s = ok s
handle_with (some c) f s = handle c f s

pub interrupt_handler : Flags → Rs485Status → Result Rs485Status
interrupt_handler f s = handle_with s.config f s
