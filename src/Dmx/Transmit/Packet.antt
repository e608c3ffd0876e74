-- ===== src/Dmx/Transmit/Packet.antt =====
-- A whole transmission: break, mark, start code, slots and the release of the frame.
use samlibs.Base.{
  ℕ, suc, ◌+◌, ◌-◌, ◌≤◌, ◌<◌, ◌≡◌, refl, ap, sym, ◌∙◌, List, [], ◌∷◌, ◌++◌, append_assoc, true,
  some, get_elem?, get_elem?-set_self, get_or, set, length, length-set, replicate, max, arith, ok,
  store_lem,
}
use samlibs.Dmx.Port.{Action, DmxBuffer, DmxPortHardware, DmxState, DmxPort, dmx_max_slots}
use samlibs.Dmx.Transmit.{send_frame, is_idle_state}
use samlibs.Dmx.Transmit.Phases.{
  tx_run, sends, IsSending, IsSent, tx_run_add, tx_break_run, tx_header_run, tx_slots_run,
}

-- The break bytes that are sent by interrupts, after the one that `xDmxSendFrame` writes.
abbrev pub breaks : ℕ → ℕ
breaks break_byte_count = suc (max 2 break_byte_count - 2)

-- The calls of `xDmxSendFrame`, and those for the mark and the start code.
abbrev pub start : DmxPortHardware → List Action
start hw =
    Action.clear_pin hw.txpin
    ∷ Action.pin_direction_out hw.txpin
    ∷ Action.pin_function_off hw.txpin
    ∷ Action.write_data 0
    ∷ Action.enable_txc
    ∷ []

abbrev pub header : DmxPortHardware → DmxBuffer → List Action
header hw b =
    Action.set_pin hw.txpin
    ∷ Action.write_data 0
    ∷ Action.pin_function hw.txpin hw.pinmux
    ∷ Action.write_data (get_or b.dmx 0 0)
    ∷ []

-- What the line sees of a packet.
abbrev pub packet : DmxPortHardware → ℕ → DmxBuffer → List Action
packet hw break_byte_count b =
    start hw
    ++ (replicate (breaks break_byte_count) (Action.write_data 0)
        ++ (header hw b ++ (sends b.dmx 1 b.slot_count ++ (Action.disable_dre_txc ∷ []))))

-- The port as `xDmxSendFrame` leaves it.
sending : DmxPort → ℕ → DmxBuffer → DmxPort
sending p f b = record p {
  buffers = set p.buffers f (record b { read = true });
  tx_state = DmxState.break;
  current_tx_slot = 1;
  current_tx = some f;
  txc_enabled = true;
  log = p.log ++ start p.hw;
}

send_frame_lem :
    (p : DmxPort) (f : ℕ) (b : DmxBuffer)
    → p.hw.has_module ≡ true
    → p.tx_state ≡ DmxState.idle
    → get_elem? p.buffers f ≡ some b
    → f < length p.buffers
    → send_frame p (some f) ≡ ok (true, sending p f b)
unfolding send_frame sending
send_frame_lem p f b module_set idle here bound = rw (
  module_set,
  ap is_idle_state idle,
  here,
  store_lem p.buffers f (record b { read = true }) bound,
)

joined :
    (l a b c d : List Action) {y z : List Action}
    → y ≡ (l ++ a) ++ b
    → z ≡ y ++ c
    → z ++ d ≡ l ++ (a ++ (b ++ (c ++ d)))
joined l a b c d p q = ap (λ x. x ++ d) (q ∙ ap (λ x. x ++ c) p) ∙ simp append_assoc

-- A frame of 1 to 512 slots behind its start code, sent from an idle port. `xDmxSendFrame`
-- succeeds and marks the frame read. The transmit-complete interrupts, one for each break byte
-- but the first, for the mark, for the start code and for each slot, then put a DMX packet on the
-- line: the break, of `breakByteCount` bytes but at least two, the mark, the start code and the
-- slots in order, and nothing else. After the last of them the port is idle, its transmit
-- interrupts are disabled, and the frame is neither read nor valid.
pub packet-IsSent :
    (p : DmxPort) (f : ℕ) (b : DmxBuffer)
    → p.hw.has_module ≡ true
    → p.tx_state ≡ DmxState.idle
    → get_elem? p.buffers f ≡ some b
    → f < length p.buffers
    → length b.dmx ≡ dmx_max_slots + 1
    → 1 ≤ b.slot_count
    → b.slot_count ≤ dmx_max_slots
    → p.break_byte_count < 256
    → (p1 p2 : DmxPort) × (send_frame p (some f) ≡ ok (true, p1))
      × (get_elem? p1.buffers f ≡ some (record b { read = true }))
      × (tx_run (breaks p.break_byte_count + (2 + b.slot_count)) p1 ≡ ok p2)
      × IsSent f b p.log (packet p.hw p.break_byte_count b) p2
unfolding sending
packet-IsSent p f b module_set idle here bound sized low high count =
    let p1 = sending p f b in
    let c = record b { read = true } in
    let h1 : IsSending DmxState.break 1 f c p1 = record {
      state = refl;
      slot = refl;
      at = refl;
      here = get_elem?-set_self p.buffers f c bound;
      bound = rw length-set bound;
    } in
    let n = max 2 p.break_byte_count - 2 in
    let (q, run1, h2, log1, same_hw) =
      tx_break_run n 1 f c p1 h1 (omega arith) (omega arith) (omega arith) in
    let (r, run2, h3, log2) = tx_header_run (1 + suc n) f c q h2 (omega arith) in
    let m = b.slot_count - 1 in
    let (p2, run3, sent) = tx_slots_run m 1 f c r h3 (omega arith) (omega arith) (omega arith) in
    let steps : b.slot_count ≡ suc m = omega arith in
    let run : tx_run (breaks p.break_byte_count + (2 + b.slot_count)) p1 ≡ ok p2 =
      tx_run_add (suc n) (2 + b.slot_count) p1 q run1
      ∙ tx_run_add 2 b.slot_count q r run2
      ∙ ap (λ (k : ℕ). tx_run k r) steps
      ∙ run3 in
    (
      p1,
      p2,
      send_frame_lem p f b module_set idle here bound,
      h1.here,
      run,
      record {
        idle = sent.idle;
        quiet = sent.quiet;
        released = sent.released;
        logged =
            sent.logged
            ∙ joined p.log (start p.hw) (replicate (suc n) (Action.write_data 0)) (header p.hw b)
                (sends b.dmx 1 (suc m) ++ (Action.disable_dre_txc ∷ [])) log1
                (log2 ∙ ap (λ hw. q.log ++ header hw b) same_hw)
            ∙ ap
                (λ (k : ℕ).
                  p.log
                  ++ (start p.hw
                      ++ (replicate (suc n) (Action.write_data 0)
                          ++ (header p.hw b
                              ++ (sends b.dmx 1 k ++ (Action.disable_dre_txc ∷ []))))))
                (sym steps);
      },
    )
