-- ===== src/Dmx/Transmit/Phases.antt =====
-- The phases of a transmission, each over the interrupts that it takes.
use samlibs.Base.{
  ℕ, zero, suc, ◌+◌, ◌%◌, ◌^◌, ◌≤◌, ◌<◌, ◌≡◌, refl, ap, sym, ◌∙◌, List, [], ◌∷◌, ◌++◌, append_assoc,
  true, false, some, get_elem?, get_or, length, arith, Result, ok, ◌>>=◌, inl, inr, ok-injective,
  Result-cases, load_lem, store_lem, ltb, leb, if◌then◌else◌, load, set, get_elem?-set_self,
  replicate, max,
}
use samlibs.Dmx.Port.{Action, DmxBuffer, DmxState, DmxPort, emit, buffer_at}
use samlibs.Dmx.Transmit.{
  release, end_transmission, tx_break, tx_mark, tx_start_code, tx_slots, tx_complete,
}

-- `n` transmit-complete interrupts, one after the other.
unfoldable pub tx_run : ℕ → DmxPort → Result DmxPort
tx_run zero p = ok p
tx_run (suc n) p = do p' ← tx_complete p.tx_state p; tx_run n p'

-- The writes of `n` bytes of a frame, from index `s` on.
abbrev pub sends : List ℕ → ℕ → ℕ → List Action
sends dmx s zero = []
sends dmx s (suc n) = Action.write_data (get_or dmx s 0) ∷ sends dmx (s + 1) n

-- The transmitter stands in state `st` at slot `s` of the frame `b`, buffer `i`.
pub record IsSending (st : DmxState) (s i : ℕ) (b : DmxBuffer) (p : DmxPort) : Type 0 where
  pub state : p.tx_state ≡ st
  pub slot : p.current_tx_slot ≡ s
  pub at : p.current_tx ≡ some i
  pub here : get_elem? p.buffers i ≡ some b
  pub bound : i < length p.buffers

pub tx_state_lem :
    (st : DmxState) (p : DmxPort) → p.tx_state ≡ st → tx_complete p.tx_state p ≡ tx_complete st p
tx_state_lem st p e = ap (λ s. tx_complete s p) e

pub tx_buffer_lem :
    {st : DmxState} {s i : ℕ} {b : DmxBuffer} (p : DmxPort)
    → IsSending st s i b p
    → buffer_at p.buffers p.current_tx ≡ ok b
tx_buffer_lem p h = rw (h.at, h.here)

-- A slot that is not the last one.
pub tx_slot_more :
    (s i : ℕ) (b : DmxBuffer) (p : DmxPort)
    → IsSending DmxState.slots s i b p
    → s < length b.dmx
    → s + 1 ≤ b.slot_count
    → s < 600
    → (p' : DmxPort) × (tx_complete p.tx_state p ≡ ok p')
      × IsSending DmxState.slots (s + 1) i b p'
      × (p'.log ≡ p.log ++ (Action.write_data (get_or b.dmx s 0) ∷ []))
unfolding tx_complete tx_slots
tx_slot_more s i b p h inside more small =
    let byte : load b.dmx p.current_tx_slot ≡ ok (get_or b.dmx s 0) =
      ap (load b.dmx) h.slot ∙ load_lem b.dmx s 0 inside in
    let next : (p.current_tx_slot + 1) % 2 ^ 16 ≡ s + 1 = omega (arith, h.slot) in
    let go_on : ltb b.slot_count ((p.current_tx_slot + 1) % 2 ^ 16) ≡ false =
      ground (arith, h.slot) in
    (
      record (emit (Action.write_data (get_or b.dmx s 0)) p) {
        current_tx_slot = (p.current_tx_slot + 1) % 2 ^ 16;
      },
      tx_state_lem DmxState.slots p h.state ∙ rw (tx_buffer_lem p h, byte, go_on),
      record { state = h.state; slot = next; at = h.at; here = h.here; bound = h.bound },
      refl,
    )

-- What the end of a transmission leaves behind.
record IsDone (i : ℕ) (b : DmxBuffer) (p p' : DmxPort) : Type 0 where
  idle : p'.tx_state ≡ DmxState.idle
  quiet : (p'.dre_enabled ≡ false) × (p'.txc_enabled ≡ false)
  released : get_elem? p'.buffers i ≡ some (record b { valid = false; read = false })
  logged : p'.log ≡ p.log ++ (Action.disable_dre_txc ∷ [])

end_transmission_lem :
    (p : DmxPort) (i : ℕ) (b : DmxBuffer)
    → p.current_tx ≡ some i
    → get_elem? p.buffers i ≡ some b
    → i < length p.buffers
    → (p' : DmxPort) × (end_transmission p ≡ ok p') × IsDone i b p p'
unfolding end_transmission release
end_transmission_lem p i b at here bound =
    let c = record b { valid = false; read = false } in
    (
      record (emit Action.disable_dre_txc p) {
        dre_enabled = false;
        txc_enabled = false;
        tx_state = DmxState.idle;
        buffers = set p.buffers i c;
      },
      rw (at, here, store_lem p.buffers i c bound),
      record {
        idle = refl;
        quiet = (refl, refl);
        released = get_elem?-set_self p.buffers i c bound;
        logged = refl;
      },
    )

-- The last slot, and with it the end.
tx_slot_last :
    (s i : ℕ) (b : DmxBuffer) (p : DmxPort)
    → IsSending DmxState.slots s i b p
    → s < length b.dmx
    → b.slot_count ≤ s
    → s < 600
    → (p' : DmxPort) × (tx_complete p.tx_state p ≡ ok p')
      × IsDone i b (emit (Action.write_data (get_or b.dmx s 0)) p) p'
unfolding tx_complete tx_slots
tx_slot_last s i b p h inside last small =
    let byte : load b.dmx p.current_tx_slot ≡ ok (get_or b.dmx s 0) =
      ap (load b.dmx) h.slot ∙ load_lem b.dmx s 0 inside in
    let ends : ltb b.slot_count ((p.current_tx_slot + 1) % 2 ^ 16) ≡ true =
      ground (arith, h.slot) in
    let sent = record (emit (Action.write_data (get_or b.dmx s 0)) p) {
      current_tx_slot = (p.current_tx_slot + 1) % 2 ^ 16;
    } in
    let (p', q, done) = end_transmission_lem sent i b h.at h.here h.bound in
    (
      p',
      tx_state_lem DmxState.slots p h.state ∙ rw (tx_buffer_lem p h, byte, ends, q),
      record {
        idle = done.idle;
        quiet = done.quiet;
        released = done.released;
        logged = done.logged;
      },
    )

-- The end state after all that is logged in between.
pub record IsSent (i : ℕ) (b : DmxBuffer) (before acts : List Action) (p' : DmxPort) : Type 0 where
  pub idle : p'.tx_state ≡ DmxState.idle
  pub quiet : (p'.dre_enabled ≡ false) × (p'.txc_enabled ≡ false)
  pub released : get_elem? p'.buffers i ≡ some (record b { valid = false; read = false })
  pub logged : p'.log ≡ before ++ acts

pub tx_slots_run :
    (n s i : ℕ) (b : DmxBuffer) (p : DmxPort)
    → IsSending DmxState.slots s i b p
    → s + n ≡ b.slot_count
    → b.slot_count < length b.dmx
    → b.slot_count < 600
    → (p' : DmxPort) × (tx_run (suc n) p ≡ ok p')
      × IsSent i b p.log (sends b.dmx s (suc n) ++ (Action.disable_dre_txc ∷ [])) p'
unfolding tx_run
tx_slots_run zero s i b p h total inside small =
    let (p', q, done) = tx_slot_last s i b p h (omega arith) (omega arith) (omega arith) in
    (
      p',
      rw q,
      record {
        idle = done.idle;
        quiet = done.quiet;
        released = done.released;
        logged =
            done.logged
            ∙ append_assoc p.log (Action.write_data (get_or b.dmx s 0) ∷ [])
                (Action.disable_dre_txc ∷ []);
      },
    )
tx_slots_run (suc n) s i b p h total inside small =
    let (p', q, h', logged) = tx_slot_more s i b p h (omega arith) (omega arith) (omega arith) in
    let (p'', q', sent) = tx_slots_run n (s + 1) i b p' h' (omega arith) inside small in
    let rest = sends b.dmx (s + 1) (suc n) ++ (Action.disable_dre_txc ∷ []) in
    (
      p'',
      rw q q',
      record {
        idle = sent.idle;
        quiet = sent.quiet;
        released = sent.released;
        logged =
            sent.logged
            ∙ ap (λ l. l ++ rest) logged
            ∙ append_assoc p.log (Action.write_data (get_or b.dmx s 0) ∷ []) rest;
      },
    )

pub tx_run_add : (n m : ℕ) (p p' : DmxPort) → tx_run n p ≡ ok p' → tx_run (n + m) p ≡ tx_run m p'
unfolding tx_run
tx_run_add zero m p p' e =
    ap (λ k. tx_run k p) {y = m} (omega arith) ∙ ap (tx_run m) (ok-injective e)
tx_run_add (suc n) m p p' e = elim (Result-cases (tx_complete p.tx_state p)) [
  | inl (q, step) ↦
      ap (λ k. tx_run k p) {y = suc (n + m)} (omega arith)
      ∙ unfold tx_run in
        (ap (λ r. r >>= tx_run (n + m)) step)
        ∙ tx_run_add n m q p' (ap (λ r. r >>= tx_run n) (sym step) ∙ e)
  | inr (g, step) ↦ cc (ap (λ r. r >>= tx_run n) (sym step) ∙ e)
]

-- The break bytes that follow the first one, up to `break_byte_count`.
pub tx_break_run :
    (n s i : ℕ) (b : DmxBuffer) (p : DmxPort)
    → IsSending DmxState.break s i b p
    → p.break_byte_count ≤ s + suc n
    → s + n < max p.break_byte_count (s + 1)
    → s + n < 600
    → (p' : DmxPort) × (tx_run (suc n) p ≡ ok p')
      × IsSending DmxState.mark (s + suc n) i b p'
      × (p'.log ≡ p.log ++ replicate (suc n) (Action.write_data 0))
      × (p'.hw ≡ p.hw)
unfolding tx_run tx_complete tx_break
tx_break_run zero s i b p h reach below small =
    let next : (p.current_tx_slot + 1) % 2 ^ 16 ≡ s + 1 = omega (arith, h.slot) in
    let over : leb p.break_byte_count ((p.current_tx_slot + 1) % 2 ^ 16) ≡ true =
      ground (arith, h.slot) in
    (
      tx_break p,
      ap (λ r. r >>= tx_run 0) (tx_state_lem DmxState.break p h.state),
      record {
        state = ap (λ t. if t then DmxState.mark else p.tx_state) over;
        slot = next;
        at = h.at;
        here = h.here;
        bound = h.bound;
      },
      refl,
      refl,
    )
tx_break_run (suc n) s i b p h reach below small =
    let next : (p.current_tx_slot + 1) % 2 ^ 16 ≡ s + 1 = omega (arith, h.slot) in
    let more : leb p.break_byte_count ((p.current_tx_slot + 1) % 2 ^ 16) ≡ false =
      ground (arith, h.slot) in
    let h' : IsSending DmxState.break (s + 1) i b (tx_break p) = record {
      state = ap (λ t. if t then DmxState.mark else p.tx_state) more ∙ h.state;
      slot = next;
      at = h.at;
      here = h.here;
      bound = h.bound;
    } in
    let (p', q, h'', logged, same) =
      tx_break_run n (s + 1) i b (tx_break p) h' (omega arith) (omega arith) (omega arith) in
    (
      p',
      ap (λ r. r >>= tx_run (suc n)) (tx_state_lem DmxState.break p h.state) ∙ q,
      record {
        state = h''.state;
        slot = h''.slot ∙ omega arith;
        at = h''.at;
        here = h''.here;
        bound = h''.bound;
      },
      logged
          ∙ append_assoc p.log (Action.write_data 0 ∷ []) (replicate (suc n) (Action.write_data 0)),
      same,
    )

-- The mark and the start code take one interrupt each.
pub tx_header_run :
    (s i : ℕ) (b : DmxBuffer) (p : DmxPort)
    → IsSending DmxState.mark s i b p
    → 0 < length b.dmx
    → (p' : DmxPort) × (tx_run 2 p ≡ ok p')
      × IsSending DmxState.slots 1 i b p'
      × (p'.log
          ≡ p.log
            ++ (Action.set_pin p.hw.txpin
                ∷ Action.write_data 0
                ∷ Action.pin_function p.hw.txpin p.hw.pinmux
                ∷ Action.write_data (get_or b.dmx 0 0)
                ∷ []))
unfolding tx_run tx_complete tx_start_code tx_mark
tx_header_run s i b p h inside =
    let q = tx_mark p in
    let k : IsSending DmxState.start_code s i b q = record {
      state = refl;
      slot = h.slot;
      at = h.at;
      here = h.here;
      bound = h.bound;
    } in
    let acts =
      Action.pin_function p.hw.txpin p.hw.pinmux ∷ Action.write_data (get_or b.dmx 0 0) ∷ [] in
    (
      record (emit (Action.write_data (get_or b.dmx 0 0))
          (emit (Action.pin_function p.hw.txpin p.hw.pinmux) q)) {
            current_tx_slot = 1;
            tx_state = DmxState.slots;
          },
      ap (λ r. r >>= tx_run 1) (tx_state_lem DmxState.mark p h.state)
          ∙ rw (tx_buffer_lem q k, load_lem b.dmx 0 0 inside),
      record { state = refl; slot = refl; at = h.at; here = h.here; bound = h.bound },
      simp append_assoc,
    )
