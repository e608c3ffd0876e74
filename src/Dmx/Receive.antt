-- ===== src/Dmx/Receive.antt =====
-- The receiving half of `vDmxInterruptHandler`, with `vDmxPortPushNewFrame` and
-- `vDmxPortPushNewRdmMessage`: what each character does to the port.
pub mod Equations
pub mod Safety
pub mod Totality
pub mod Alias
pub mod Frame
use samlibs.Base.{
  ℕ, ◌+◌, ◌%◌, ◌^◌, List, [], ◌∷◌, ◌++◌, Bool, true, false, not, ◌&&◌, Option, none, some,
  if◌then◌else◌, ltb, leb, ◌==◌, Result, ok, fault, ◌>>=◌, load, store, deref, is_some,
}
use samlibs.Dmx.Port.{
  DmxBuffer, DmxState, DmxActivity, DmxPort, Callbacks, Received, Action, emit, buffer_at,
  put_buffer, dmx_max_slots, dmx_startcode_index, dmx_startcode, rdm_startcode,
  rdm_minimumframelength, message_length_index,
}
use samlibs.Dmx.Buffers.{get_next_buffer}

-- A callback that may be NULL.
abbrev pub notify :
    Option (Option ℕ → List DmxBuffer → List DmxBuffer) → Option ℕ → List DmxBuffer → List DmxBuffer
notify none b bs = bs
notify (some cb) b bs = cb b bs

-- What the two functions below do alike.
pub push : Option (Option ℕ → List DmxBuffer → List DmxBuffer) → DmxPort → Result DmxPort
push cb p = do
  b ← buffer_at p.buffers p.current_rx
  bs ← put_buffer p.buffers p.current_rx (record b { written = false; valid = true })
  let next = get_next_buffer bs
  ok (record p {
    buffers = notify cb p.current_rx next.1;
    current_rx = next.0;
    last_valid_rx = p.current_rx;
  })

pub push_new_frame : Callbacks → DmxPort → Result DmxPort
push_new_frame cbs p = push cbs.new_rx_frame p

pub push_new_rdm_message : Callbacks → DmxPort → Result DmxPort
push_new_rdm_message cbs p = push cbs.new_rdm_message p

-- A break: a framing error while the pin is low. It ends an incomplete frame.
pub rx_break : Callbacks → DmxPort → Result DmxPort
rx_break cbs p = do
  b ← buffer_at p.buffers p.current_rx
  p' ← if b.slot_count == 0 then ok p else push_new_frame cbs p
  ok (record p' { rx_state = DmxState.start_code })

-- `config->currentRxBuffer->dmx[DMX_STARTCODE_INDEX] = data_byte`, if there is a buffer.
pub store_start_code : List DmxBuffer → Option ℕ → ℕ → Result (List DmxBuffer)
store_start_code bs none byte = ok bs
store_start_code bs (some i) byte = do
  b ← buffer_at bs (some i)
  dmx ← store b.dmx dmx_startcode_index byte
  put_buffer bs (some i) (record b { dmx = dmx })

pub rx_start_code : ℕ → DmxPort → Result DmxPort
rx_start_code byte p = do
  bs ← store_start_code p.buffers p.current_rx byte
  b ← buffer_at bs p.current_rx
  bs' ← put_buffer bs p.current_rx (record b { slot_count = 1 })
  let next =
      if byte == dmx_startcode
      then DmxState.slots
      else if byte == rdm_startcode
      then DmxState.rdm
      else DmxState.idle
  ok (record p { buffers = bs'; rx_state = next })

-- `config->currentRxBuffer->dmx[config->currentRxBuffer->slotCount++] = data_byte`
pub append_slot : ℕ → DmxPort → Result (DmxBuffer × DmxPort)
append_slot byte p = do
  b ← buffer_at p.buffers p.current_rx
  dmx ← store b.dmx b.slot_count byte
  let b' = record b { dmx = dmx; slot_count = (b.slot_count + 1) % 2 ^ 16 }
  bs ← put_buffer p.buffers p.current_rx b'
  ok (b', record p { buffers = bs })

pub rx_slots : Callbacks → ℕ → DmxPort → Result DmxPort
rx_slots cbs byte p = do
  appended ← append_slot byte p
  if ltb dmx_max_slots appended.0.slot_count
      then (do
        p' ← push_new_frame cbs appended.1
        ok (record p' { activity = DmxActivity.dmx; rx_state = DmxState.idle }))
      else ok appended.1

-- The RDM message is complete with the two bytes of its checksum.
pub rx_rdm : Callbacks → ℕ → DmxPort → Result DmxPort
rx_rdm cbs byte p = do
  appended ← append_slot byte p
  len ← load appended.0.dmx message_length_index
  if leb (len + 2) appended.0.slot_count && leb rdm_minimumframelength appended.0.slot_count
      then (do
        p' ← push_new_rdm_message cbs appended.1
        ok (record p' { activity = DmxActivity.rdm; rx_state = DmxState.idle }))
      else ok appended.1

-- The `switch` on the receive state.
pub rx_data : Callbacks → DmxState → ℕ → DmxPort → Result DmxPort
rx_data cbs DmxState.idle byte p = ok p
rx_data cbs DmxState.start_code byte p = rx_start_code byte p
rx_data cbs DmxState.slots byte p = if is_some p.current_rx then rx_slots cbs byte p else ok p
rx_data cbs DmxState.rdm byte p = if is_some p.current_rx then rx_rdm cbs byte p else ok p
rx_data cbs _ byte p = ok (record p { rx_state = DmxState.idle })

-- `cb_byteReceived`, which may be NULL.
pub announce : Callbacks → DmxPort → DmxPort
announce cbs p = if cbs.has_byte_received then emit Action.byte_received p else p

-- One round of `while(INTFLAG.bit.RXC)`.
pub rx_char : Callbacks → Received → DmxPort → Result DmxPort
rx_char cbs c p =
    let p' = announce cbs p in
    if c.bufovf
    then ok (emit Action.clear_bufovf p')
    else if c.ferr
    then (let p'' = emit Action.clear_ferr p' in if c.pin_low then rx_break cbs p'' else ok p'')
    else rx_data cbs p'.rx_state c.byte p'

-- The loop over the characters that the USART has ready.
pub rx_loop : Callbacks → List Received → DmxPort → Result DmxPort
rx_loop cbs [] p = ok p
rx_loop cbs (c ∷ cs) p = do p' ← rx_char cbs c p; rx_loop cbs cs p'
