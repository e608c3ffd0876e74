-- ===== src/Dmx/Transmit/Overrun.antt =====
-- A frame whose slot count includes its start code, as the receiver leaves it.
use samlibs.Base.{
  ℕ, zero, suc, ◌+◌, ◌<◌, ◌≡◌, refl, ap, subst, ◌∙◌, some, get_elem?, get_elem?_beyond, length,
  arith, fault, out_of_range, load, in_range,
}
use samlibs.Dmx.Port.{DmxBuffer, DmxState, DmxPort, dmx_max_slots}
use samlibs.Dmx.Transmit.{tx_complete, tx_slots}
use samlibs.Dmx.Transmit.Phases.{tx_run, IsSending, tx_slot_more, tx_state_lem, tx_buffer_lem}

-- The read of the slot behind the last one of the array.
overrun_step :
    (i : ℕ) (b : DmxBuffer) (p : DmxPort)
    → IsSending DmxState.slots (dmx_max_slots + 1) i b p
    → length b.dmx ≡ dmx_max_slots + 1
    → tx_complete p.tx_state p ≡ fault out_of_range
unfolding tx_complete tx_slots
overrun_step i b p h sized =
    let beyond : load b.dmx p.current_tx_slot ≡ fault out_of_range =
      ap (load b.dmx) h.slot ∙ ap in_range (get_elem?_beyond b.dmx 513 (omega arith)) in
    tx_state_lem DmxState.slots p h.state ∙ rw (tx_buffer_lem p h, beyond)

overrun_run :
    (n s i : ℕ) (b : DmxBuffer) (p : DmxPort)
    → IsSending DmxState.slots s i b p
    → s + n ≡ dmx_max_slots + 1
    → length b.dmx ≡ dmx_max_slots + 1
    → dmx_max_slots < b.slot_count
    → tx_run (suc n) p ≡ fault out_of_range
unfolding tx_run
overrun_run zero s i b p h total sized count =
    let at_end : s ≡ dmx_max_slots + 1 = omega arith in
    rw (overrun_step i b p (subst (λ k. IsSending DmxState.slots k i b p) at_end h) sized)
overrun_run (suc n) s i b p h total sized count =
    let (p', q, h', _) = tx_slot_more s i b p h (omega arith) (omega arith) (omega arith) in
    rw q (overrun_run n (s + 1) i b p' h' (omega arith) sized count)

-- Where a frame with more than 512 in its slot count is sent, as one that the receiver has
-- completed (its count includes the start code), the 513th transmit-complete interrupt behind the
-- start code reads `dmx[513]`, outside the array.
pub received_frame_overrun :
    (p : DmxPort) (i : ℕ) (b : DmxBuffer)
    → p.tx_state ≡ DmxState.slots
    → p.current_tx_slot ≡ 1
    → p.current_tx ≡ some i
    → get_elem? p.buffers i ≡ some b
    → i < length p.buffers
    → length b.dmx ≡ dmx_max_slots + 1
    → dmx_max_slots < b.slot_count
    → tx_run (dmx_max_slots + 1) p ≡ fault out_of_range
received_frame_overrun p i b st slot at here bound sized count =
    overrun_run 512 1 i b p
      (record { state = st; slot = slot; at = at; here = here; bound = bound }) refl sized count
