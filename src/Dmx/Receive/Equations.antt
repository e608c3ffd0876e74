-- ===== src/Dmx/Receive/Equations.antt =====
-- What the steps of the receiver compute to where they succeed, and at NULL.
use samlibs.Base.{
  ℕ, ◌+◌, List, true, false, ◌%◌, ◌^◌, ◌<◌, ◌≡◌, Option, none, some, get_elem?, get_elem?-set_self,
  set, set-set, length, length-set, ok, fault, null_pointer, store_lem, ◌==◌, if◌then◌else◌,
}
use samlibs.Dmx.Port.{DmxBuffer, DmxState, DmxPort, buffer_at, dmx_startcode, rdm_startcode}
use samlibs.Dmx.Receive.{notify, push, store_start_code, rx_start_code, append_slot}
use samlibs.Dmx.Buffers.{get_next_buffer}

abbrev pub appended : ℕ → DmxBuffer → DmxBuffer
appended byte b = record b {
  dmx = set b.dmx b.slot_count byte;
  slot_count = (b.slot_count + 1) % 2 ^ 16;
}

pub append_slot_lem :
    (byte : ℕ) (p : DmxPort) (i : ℕ) (b : DmxBuffer)
    → p.current_rx ≡ some i
    → i < length p.buffers
    → get_elem? p.buffers i ≡ some b
    → b.slot_count < length b.dmx
    → append_slot byte p
      ≡ ok (appended byte b, record p { buffers = set p.buffers i (appended byte b) })
unfolding append_slot
append_slot_lem byte p i b at lt e room =
    rw (at, e, store_lem b.dmx b.slot_count byte room, store_lem p.buffers i (appended byte b) lt)

pub buffer_at_lem :
    (p : DmxPort) (i : ℕ) (b : DmxBuffer)
    → p.current_rx ≡ some i
    → get_elem? p.buffers i ≡ some b
    → buffer_at p.buffers p.current_rx ≡ ok b
buffer_at_lem p i b at e = rw (at, e)

pub buffer_at_null :
    (p : DmxPort) → p.current_rx ≡ none → buffer_at p.buffers p.current_rx ≡ fault null_pointer
buffer_at_null p null = rw null

abbrev pub started : ℕ → DmxBuffer → DmxBuffer
started byte b = record b { dmx = set b.dmx 0 byte; slot_count = 1 }

abbrev pub after_start_code : ℕ → DmxState
after_start_code byte =
    if byte == dmx_startcode
    then DmxState.slots
    else if byte == rdm_startcode
    then DmxState.rdm
    else DmxState.idle

pub rx_start_code_null :
    (byte : ℕ) (p : DmxPort) → p.current_rx ≡ none → rx_start_code byte p ≡ fault null_pointer
unfolding rx_start_code store_start_code
rx_start_code_null byte p null = rw null

pub rx_start_code_lem :
    (byte : ℕ) (p : DmxPort) (i : ℕ) (b : DmxBuffer)
    → p.current_rx ≡ some i
    → i < length p.buffers
    → get_elem? p.buffers i ≡ some b
    → 0 < length b.dmx
    → rx_start_code byte p
      ≡ ok (record p {
        buffers = set p.buffers i (started byte b);
        rx_state = after_start_code byte;
      })
unfolding rx_start_code store_start_code
rx_start_code_lem byte p i b at lt e room =
    let c = record b { dmx = set b.dmx 0 byte } in
    let lt' : i < length (set p.buffers i c) = rw length-set lt in
    rw (
      at,
      e,
      store_lem b.dmx 0 byte room,
      store_lem p.buffers i c lt,
      get_elem?-set_self p.buffers i c lt,
      store_lem (set p.buffers i c) i (started byte b) lt',
      set-set p.buffers i c (started byte b),
    )

-- The buffer of a frame that is complete.
abbrev pub full : DmxBuffer → DmxBuffer
full b = record b { written = false; valid = true }

abbrev pub pushed :
    Option (Option ℕ → List DmxBuffer → List DmxBuffer) → DmxPort → List DmxBuffer → DmxPort
pushed cb p bs = record p {
  buffers = notify cb p.current_rx (get_next_buffer bs).1;
  current_rx = (get_next_buffer bs).0;
  last_valid_rx = p.current_rx;
}

pub push_lem :
    (cb : Option (Option ℕ → List DmxBuffer → List DmxBuffer)) (p : DmxPort) (i : ℕ) (b : DmxBuffer)
    → p.current_rx ≡ some i
    → i < length p.buffers
    → get_elem? p.buffers i ≡ some b
    → push cb p ≡ ok (pushed cb p (set p.buffers i (full b)))
unfolding push
push_lem cb p i b at lt e = rw (at, e, store_lem p.buffers i (full b) lt)
