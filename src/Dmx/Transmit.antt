-- ===== src/Dmx/Transmit.antt =====
-- `xDmxSendFrame`, `vDmxEndTransmission`, the transmitting half of `vDmxInterruptHandler`, and
-- the whole handler.
pub mod Phases
pub mod Packet
pub mod Overrun
use samlibs.Base.{
  ℕ, zero, suc, ◌+◌, ◌%◌, ◌^◌, List, [], ◌∷◌, ◌++◌, Bool, true, false, ◌&&◌, not, Option, none,
  some, if◌then◌else◌, ltb, leb, Result, ok, fault, ◌>>=◌, deref, load, store,
}
use samlibs.Dmx.Port.{
  Action, DmxBuffer, DmxState, DmxPort, Callbacks, Received, emit, buffer_at, put_buffer,
  dmx_breakbyte, dmx_startcode_index,
}
use samlibs.Dmx.Receive.{rx_loop}

-- `currentTxBuffer->status.valid = 0; currentTxBuffer->status.read = 0`, unless it is NULL.
pub release : List DmxBuffer → Option ℕ → Result (List DmxBuffer)
release bs none = ok bs
release bs (some i) = do
  b ← buffer_at bs (some i)
  put_buffer bs (some i) (record b { valid = false; read = false })

pub end_transmission : DmxPort → Result DmxPort
end_transmission p = do
  bs ← release p.buffers p.current_tx
  ok (record (emit Action.disable_dre_txc p) {
    dre_enabled = false;
    txc_enabled = false;
    tx_state = DmxState.idle;
    buffers = bs;
  })

pub tx_break : DmxPort → DmxPort
tx_break p =
    let slot = (p.current_tx_slot + 1) % 2 ^ 16 in
    record (emit (Action.write_data dmx_breakbyte) p) {
      current_tx_slot = slot;
      tx_state = if leb p.break_byte_count slot then DmxState.mark else p.tx_state;
    }

pub tx_mark : DmxPort → DmxPort
tx_mark p = record (emit (Action.write_data dmx_breakbyte) (emit (Action.set_pin p.hw.txpin) p)) {
  tx_state = DmxState.start_code;
}

pub tx_start_code : DmxPort → Result DmxPort
tx_start_code p = do
  b ← buffer_at p.buffers p.current_tx
  byte ← load b.dmx dmx_startcode_index
  ok (record (emit (Action.write_data byte) (emit (Action.pin_function p.hw.txpin p.hw.pinmux) p)) {
    current_tx_slot = 1;
    tx_state = DmxState.slots;
  })

pub tx_slots : DmxPort → Result DmxPort
tx_slots p = do
  b ← buffer_at p.buffers p.current_tx
  byte ← load b.dmx p.current_tx_slot
  let slot = (p.current_tx_slot + 1) % 2 ^ 16
  let p' = record (emit (Action.write_data byte) p) { current_tx_slot = slot }
  if ltb b.slot_count slot then end_transmission p' else ok p'

-- The `switch` on the transmit state at a transmit-complete interrupt.
pub tx_complete : DmxState → DmxPort → Result DmxPort
tx_complete DmxState.break p = ok (tx_break p)
tx_complete DmxState.mark p = ok (tx_mark p)
tx_complete DmxState.start_code p = tx_start_code p
tx_complete DmxState.slots p = tx_slots p
tx_complete _ p = end_transmission p

-- `while(INTFLAG.bit.DRE && INTENSET.bit.DRE)`, with fuel; `dre` is the flag.
pub dre_loop : ℕ → Bool → DmxPort → Result DmxPort
dre_loop zero dre p = ok p
dre_loop (suc fuel) dre p = elim (dre && p.dre_enabled) [
  | false ↦ ok p
  | true ↦ end_transmission p >>= λ p'. dre_loop fuel dre p'
]

-- The handler: the characters that are ready, and the flags TXC and DRE of INTFLAG.
pub interrupt_handler : Callbacks → List Received → Bool → Bool → DmxPort → Result DmxPort
interrupt_handler cbs rs txc dre p = if not p.hw.has_module then ok p else (do
  p1 ← rx_loop cbs rs p
  p2 ← if txc && p1.txc_enabled then tx_complete p1.tx_state p1 else ok p1
  dre_loop 2 dre p2)

abbrev pub is_idle_state : DmxState → Bool
is_idle_state DmxState.idle = true
is_idle_state _ = false

-- `true` is pdPASS. The port itself is not NULL.
pub send_frame : DmxPort → Option ℕ → Result (Bool × DmxPort)
send_frame p none = ok (false, p)
send_frame p (some f) =
    if not p.hw.has_module
    then ok (false, p)
    else if not (is_idle_state p.tx_state)
    then ok (false, p)
    else (do
      b ← buffer_at p.buffers (some f)
      bs ← put_buffer p.buffers (some f) (record b { read = true })
      ok (
        true,
        record p {
          buffers = bs;
          tx_state = DmxState.break;
          current_tx_slot = 1;
          current_tx = some f;
          txc_enabled = true;
          log =
              p.log
              ++ (Action.clear_pin p.hw.txpin
                  ∷ Action.pin_direction_out p.hw.txpin
                  ∷ Action.pin_function_off p.hw.txpin
                  ∷ Action.write_data dmx_breakbyte
                  ∷ Action.enable_txc
                  ∷ []);
        },
      ))
