-- ===== src/Dmx/Tests.antt =====
-- A port with three empty buffers, and the theorems about dmx.c and rdm.c at it.
use samlibs.Base.{
  ℕ, ◌+◌, ◌<◌, ◌≡◌, refl, inr, List, [], ◌∷◌, true, false, none, some, All-replicate, get_elem?,
  replicate, take, ok, fault, out_of_range, arith,
}
use samlibs.Dmx.Port.{DmxBuffer, DmxState, DmxActivity, DmxPort, Callbacks, Received}
use samlibs.Dmx.Buffers.Choice.{Chooses, get_next_buffer_lem}
use samlibs.Dmx.Buffers.{get_next_buffer}
use samlibs.Dmx.Receive.{rx_loop, push_new_frame}
use samlibs.Dmx.Receive.Safety.{IsBuffer, IsValid, IsPolite, Keeps}
use samlibs.Dmx.Receive.Totality.{rx_loop_total}
use samlibs.Dmx.Receive.Frame.{plain, plains, frame_received, IsDelivered}
use samlibs.Dmx.Receive.Alias.{last_valid_overwritten}
use samlibs.Dmx.Transmit.{send_frame}
use samlibs.Dmx.Transmit.Phases.{tx_run, IsSent}
use samlibs.Dmx.Transmit.Packet.{packet, breaks, packet-IsSent}
use samlibs.Dmx.Transmit.Overrun.{received_frame_overrun}
use samlibs.Dmx.Rdm.{compute_checksum}
use samlibs.Dmx.Rdm.Checksum.{sum, compute_checksum_exact}

abbrev zeros : List ℕ
zeros = replicate 513 0

abbrev empty : DmxBuffer
empty = record { dmx = zeros; slot_count = 0; read = false; written = false; valid = false }

abbrev current : DmxBuffer
current = record empty { written = true }

abbrev port : DmxPort
port = record {
  hw = record { has_module = true; txpin = 7; pinmux = 2 };
  rx_state = DmxState.start_code;
  tx_state = DmxState.idle;
  current_tx_slot = 0;
  break_byte_count = 5;
  buffers = current ∷ empty ∷ empty ∷ [];
  current_rx = some 0;
  last_valid_rx = none;
  current_tx = none;
  activity = DmxActivity.idle;
  dre_enabled = false;
  txc_enabled = false;
  log = [];
}

abbrev no_callbacks : Callbacks
no_callbacks = record { new_rx_frame = none; new_rdm_message = none; has_byte_received = false }

empty-IsBuffer : IsBuffer empty
empty-IsBuffer = (refl, All-replicate (λ v. v < 256) 513 0 (omega arith))

port-IsValid : (N : Type 0) → IsValid N port
port-IsValid N = record {
  enough = omega arith;
  sized = (empty-IsBuffer, (empty-IsBuffer, (empty-IsBuffer, tt)));
  current = (current, omega arith, refl, tt);
  spare = inr (refl, (refl, (refl, tt)));
}

Keeps-refl : (N : Type 0) (bs : List DmxBuffer) → Keeps N bs bs
Keeps-refl N [] = tt
Keeps-refl N (b ∷ bs) = (refl, refl, inr refl, Keeps-refl N bs)

no_callbacks-IsPolite : (N : Type 0) → IsPolite N no_callbacks
no_callbacks-IsPolite N b bs = (Keeps-refl N bs, Keeps-refl N bs)

-- A start code, two slots, a break.
abbrev traffic : List Received
traffic =
    plain 0
    ∷ plain 17
    ∷ plain 255
    ∷ record { byte = 0; bufovf = false; ferr = true; pin_low = true }
    ∷ []

rx_loop_total_example : (p' : DmxPort) × (rx_loop no_callbacks traffic port ≡ ok p') × IsValid ⊥ p'
rx_loop_total_example =
    rx_loop_total no_callbacks traffic port (no_callbacks-IsPolite ⊥) (omega arith) (port-IsValid ⊥)

frame_received_example :
    (p' : DmxPort) × (rx_loop no_callbacks (plain 0 ∷ plains (9 ∷ replicate 511 3)) port ≡ ok p')
    × IsDelivered no_callbacks 0 (0 ∷ 9 ∷ replicate 511 3) p'
frame_received_example =
    frame_received no_callbacks 9 (replicate 511 3) 0 current port refl refl refl refl refl

get_next_buffer_lem_example :
    Chooses port.buffers (get_next_buffer port.buffers).0 (get_next_buffer port.buffers).1
get_next_buffer_lem_example = get_next_buffer_lem port.buffers

-- Two valid frames that the application has not taken.
abbrev untaken : DmxBuffer
untaken = record empty { valid = true; slot_count = 513 }

abbrev crowded : DmxPort
crowded = record port { buffers = current ∷ untaken ∷ untaken ∷ [] }

last_valid_overwritten_example :
    (p' : DmxPort) × (push_new_frame no_callbacks crowded ≡ ok p')
    × (p'.last_valid_rx ≡ some 0)
    × (p'.current_rx ≡ p'.last_valid_rx)
    × (get_elem? p'.buffers 0
        ≡ some (record current { written = true; valid = true; slot_count = 0 }))
last_valid_overwritten_example =
    last_valid_overwritten no_callbacks crowded current untaken untaken [] refl refl refl refl refl
      refl

abbrev three_slots : DmxBuffer
three_slots = record empty { dmx = 0 ∷ 10 ∷ 20 ∷ 30 ∷ replicate 509 0; slot_count = 3 }

abbrev loaded : DmxPort
loaded = record port { buffers = current ∷ empty ∷ empty ∷ three_slots ∷ [] }

packet-IsSent_example :
    (p1 p2 : DmxPort) × (send_frame loaded (some 3) ≡ ok (true, p1))
    × (get_elem? p1.buffers 3 ≡ some (record three_slots { read = true }))
    × (tx_run (breaks 5 + (2 + 3)) p1 ≡ ok p2)
    × IsSent 3 three_slots [] (packet port.hw 5 three_slots) p2
packet-IsSent_example =
    packet-IsSent loaded 3 three_slots refl refl refl (omega arith) refl (omega arith) (omega arith)
      (omega arith)

abbrev resending : DmxPort
resending = record port {
  buffers = untaken ∷ current ∷ empty ∷ [];
  tx_state = DmxState.slots;
  current_tx_slot = 1;
  current_tx = some 0;
}

received_frame_overrun_example : tx_run 513 resending ≡ fault out_of_range
received_frame_overrun_example =
    received_frame_overrun resending 0 untaken refl refl refl refl (omega arith) refl (omega arith)

-- An RDM message of 24 bytes, and its checksum behind it.
abbrev message : DmxBuffer
message = record empty { dmx = 0xCC ∷ 1 ∷ 24 ∷ 200 ∷ replicate 509 0; slot_count = 26 }

message-IsBuffer : IsBuffer message
message-IsBuffer = (
  refl,
  (
    omega arith,
    (omega arith, (omega arith, (omega arith, All-replicate (λ v. v < 256) 509 0 (omega arith)))),
  ),
)

compute_checksum_exact_example : compute_checksum message ≡ ok (sum (take 24 message.dmx))
compute_checksum_exact_example =
    compute_checksum_exact message 24 refl message-IsBuffer.0 message-IsBuffer.1
