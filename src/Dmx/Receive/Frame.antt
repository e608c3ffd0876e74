-- ===== src/Dmx/Receive/Frame.antt =====
-- A whole DMX packet, from its start code to its last slot.
use samlibs.Base.{
  ℕ, zero, suc, ◌+◌, ◌%◌, ◌^◌, ◌<◌, ◌≡◌, refl, ap, sym, subst, ◌∙◌, ◌⊎◌, inl, inr, List, [], ◌∷◌,
  ◌++◌, append_assoc, true, false, Option, none, some, get_elem?, get_elem?-set_self,
  get_elem?-set_ne, set, length, length-set, take, take_all, take-set_next, arith, ok, Bool-cases,
  is_some, ltb, if◌then◌else◌,
}
use native.Mathlib.Decide.{ℕ_discrete}
use mathlib.Core.Option.{some-injective}
use samlibs.Dmx.Port.{DmxBuffer, DmxState, DmxActivity, DmxPort, Callbacks, Received, dmx_max_slots}
use samlibs.Dmx.Buffers.{get_next_buffer, claimed}
use samlibs.Dmx.Buffers.Choice.{Chooses, get_next_buffer_lem}
use samlibs.Dmx.Receive.{
  notify, push_new_frame, rx_start_code, rx_slots, rx_data, announce, rx_char, rx_loop,
}
use samlibs.Dmx.Receive.Equations.{
  appended, append_slot_lem, started, rx_start_code_lem, full, pushed, push_lem,
}

-- A character without an error.
abbrev pub plain : ℕ → Received
plain x = record { byte = x; bufovf = false; ferr = false; pin_low = false }

abbrev pub plains : List ℕ → List Received
plains [] = []
plains (x ∷ xs) = plain x ∷ plains xs

-- The port is receiving into buffer `i`, whose content is `b`.
record IsReceiving (s : DmxState) (i : ℕ) (b : DmxBuffer) (p : DmxPort) : Type 0 where
  state : p.rx_state ≡ s
  at : p.current_rx ≡ some i
  here : get_elem? p.buffers i ≡ some b
  bound : i < length p.buffers
  sized : length b.dmx ≡ dmx_max_slots + 1

announce-IsReceiving :
    {s : DmxState} {i : ℕ} {b : DmxBuffer} {p : DmxPort} (cbs : Callbacks)
    → IsReceiving s i b p
    → IsReceiving s i b (announce cbs p)
unfolding announce
announce-IsReceiving cbs h = elim (Bool-cases cbs.has_byte_received) [
  | inl set_up ↦
      rw set_up
        (record { state = h.state; at = h.at; here = h.here; bound = h.bound; sized = h.sized })
  | inr null ↦ rw null h
]

-- A character is handled by the state, with the buffer that the port has.
rx_char_slots :
    (cbs : Callbacks) (x i : ℕ) (b : DmxBuffer) (p : DmxPort)
    → IsReceiving DmxState.slots i b (announce cbs p)
    → rx_char cbs (plain x) p ≡ rx_slots cbs x (announce cbs p)
unfolding rx_char rx_data
rx_char_slots cbs x i b p k =
    let q = announce cbs p in
    ap (λ s. rx_data cbs s x q) k.state
    ∙ ap (λ (o : Option ℕ). if is_some o then rx_slots cbs x q else ok q) k.at

rx_char_start :
    (cbs : Callbacks) (x i : ℕ) (b : DmxBuffer) (p : DmxPort)
    → IsReceiving DmxState.start_code i b (announce cbs p)
    → rx_char cbs (plain x) p ≡ rx_start_code x (announce cbs p)
unfolding rx_char rx_data
rx_char_start cbs x i b p k = ap (λ s. rx_data cbs s x (announce cbs p)) k.state

-- A slot that does not complete the frame.
slot_more :
    (cbs : Callbacks) (x i : ℕ) (b : DmxBuffer) (p : DmxPort)
    → IsReceiving DmxState.slots i b p
    → b.slot_count < 512
    → (p' : DmxPort) × (rx_char cbs (plain x) p ≡ ok p')
      × IsReceiving DmxState.slots i (appended x b) p'
unfolding rx_slots
slot_more cbs x i b p h room =
    let q = announce cbs p in
    let k = announce-IsReceiving cbs h in
    let step = append_slot_lem x q i b k.at k.bound k.here (omega (arith, k.sized)) in
    let more : ltb dmx_max_slots (appended x b).slot_count ≡ false = ground arith in
    (
      record q { buffers = set q.buffers i (appended x b) },
      rw (rx_char_slots cbs x i b p k, step, more),
      record {
        state = k.state;
        at = k.at;
        here = get_elem?-set_self q.buffers i (appended x b) k.bound;
        bound = rw length-set k.bound;
        sized = rw length-set k.sized;
      },
    )

slot_first :
    (cbs : Callbacks) (i : ℕ) (b : DmxBuffer) (p : DmxPort)
    → IsReceiving DmxState.start_code i b p
    → (p' : DmxPort) × (rx_char cbs (plain 0) p ≡ ok p')
      × IsReceiving DmxState.slots i (started 0 b) p'
slot_first cbs i b p h =
    let q = announce cbs p in
    let k = announce-IsReceiving cbs h in
    (
      record q { buffers = set q.buffers i (started 0 b); rx_state = DmxState.slots },
      rx_char_start cbs 0 i b p k
          ∙ rx_start_code_lem 0 q i b k.at k.bound k.here (omega (arith, k.sized)),
      record {
        state = refl;
        at = k.at;
        here = get_elem?-set_self q.buffers i (started 0 b) k.bound;
        bound = rw length-set k.bound;
        sized = rw length-set k.sized;
      },
    )

-- The port after a frame: buffer `i` holds it, is valid and is the last valid one, and keeps its
-- slot count unless it is at once taken for the next frame. `bs` are the buffers as the callback
-- finds them.
pub record IsDelivered (cbs : Callbacks) (i : ℕ) (frame : List ℕ) (p : DmxPort) : Type 0 where
  pub bs : List DmxBuffer
  pub called : p.buffers ≡ notify cbs.new_rx_frame (some i) bs
  pub buffer : DmxBuffer
  pub here : get_elem? bs i ≡ some buffer
  pub frame_here : buffer.dmx ≡ frame
  pub is_valid : buffer.valid ≡ true
  pub counted : (buffer.slot_count ≡ length frame) ⊎ (p.current_rx ≡ some i)
  pub last_valid : p.last_valid_rx ≡ some i
  pub state : p.rx_state ≡ DmxState.idle
  pub activity : p.activity ≡ DmxActivity.dmx

bound_of : (bs : List DmxBuffer) (i : ℕ) (b : DmxBuffer) → get_elem? bs i ≡ some b → i < length bs
bound_of [] i b e = cc
bound_of (x ∷ bs) zero b e = omega arith
bound_of (x ∷ bs) (suc i) b e = omega (arith, bound_of bs i b e)

-- The choice of the next buffer leaves the frame in `i` as it is, but for the count of its slots
-- where it takes `i` itself.
Chooses-keeps :
    (bs : List DmxBuffer) (o : Option ℕ) (bs' : List DmxBuffer) (i : ℕ) (b : DmxBuffer)
    → Chooses bs o bs'
    → get_elem? bs i ≡ some b
    → (d : DmxBuffer) × (get_elem? bs' i ≡ some d)
      × (d.dmx ≡ b.dmx)
      × (d.valid ≡ b.valid)
      × ((d.slot_count ≡ b.slot_count) ⊎ (o ≡ some i))
Chooses-keeps bs none bs' i b h e = (b, ap (λ l. get_elem? l i) h.0 ∙ e, refl, refl, inl refl)
Chooses-keeps bs (some j) bs' i b (c, lt, at, best, same) e = elim (ℕ_discrete j i) [
  | yes here ↦
      let there : get_elem? bs j ≡ some b = ap (get_elem? bs) here ∙ e in
      let b_is_c : b ≡ c = some-injective _ _ (sym there ∙ at) in
      (
        claimed c,
        ap (λ l. get_elem? l i) same
            ∙ ap (get_elem? (set bs j (claimed c))) (sym here)
            ∙ get_elem?-set_self bs j (claimed c) (bound_of bs j c at),
        ap (λ (x : DmxBuffer). x.dmx) (sym b_is_c),
        ap (λ (x : DmxBuffer). x.valid) (sym b_is_c),
        inr (ap some here),
      )
  | no other ↦ (
    b,
    ap (λ l. get_elem? l i) same ∙ get_elem?-set_ne bs j i (claimed c) other ∙ e,
    refl,
    refl,
    inl refl,
  )
]

slot_last :
    (cbs : Callbacks) (x i : ℕ) (b : DmxBuffer) (p : DmxPort)
    → IsReceiving DmxState.slots i b p
    → b.slot_count ≡ 512
    → (p' : DmxPort) × (rx_char cbs (plain x) p ≡ ok p') × IsDelivered cbs i (set b.dmx 512 x) p'
unfolding rx_slots push_new_frame
slot_last cbs x i b p h count =
    let q = announce cbs p in
    let k = announce-IsReceiving cbs h in
    let c = appended x b in
    let step = append_slot_lem x q i b k.at k.bound k.here (omega (arith, k.sized)) in
    let complete : ltb dmx_max_slots c.slot_count ≡ true = ground arith in
    let q' = record q { buffers = set q.buffers i c } in
    let bound : i < length q'.buffers = rw length-set k.bound in
    let here = get_elem?-set_self q.buffers i c k.bound in
    let bs = set q'.buffers i (full c) in
    let there = get_elem?-set_self q'.buffers i (full c) bound in
    let (d, d_here, d_dmx, d_valid, d_count) =
      Chooses-keeps bs (get_next_buffer bs).0 (get_next_buffer bs).1 i (full c)
        (get_next_buffer_lem bs) there in
    (
      record (pushed cbs.new_rx_frame q' bs) {
        activity = DmxActivity.dmx;
        rx_state = DmxState.idle;
      },
      rw (
        rx_char_slots cbs x i b p k,
        step,
        complete,
        push_lem cbs.new_rx_frame q' i c k.at bound here,
      ),
      record {
        bs = (get_next_buffer bs).1;
        called = ap (λ o. notify cbs.new_rx_frame o (get_next_buffer bs).1) k.at;
        buffer = d;
        here = d_here;
        frame_here = d_dmx ∙ ap (λ (n : ℕ). set b.dmx n x) count;
        is_valid = d_valid;
        counted = recount d.slot_count (get_next_buffer bs).0 d_count;
        last_valid = k.at;
        state = refl;
        activity = refl;
      },
    )
  where
    recount :
        (n : ℕ) (o : Option ℕ)
        → (n ≡ (b.slot_count + 1) % 2 ^ 16) ⊎ (o ≡ some i)
        → (n ≡ length (set b.dmx 512 x)) ⊎ (o ≡ some i)
    recount n o (inl e) = inl (omega (arith, length-set b.dmx 512 x, h.sized))
    recount n o (inr e) = inr e

set_last : (l : List ℕ) (n x : ℕ) → length l ≡ n + 1 → set l n x ≡ take n l ++ (x ∷ [])
set_last l n x h =
    sym (take_all (set l n x))
    ∙ ap (λ (m : ℕ). take m (set l n x)) (length-set l n x ∙ h)
    ∙ take-set_next l n x (omega arith)

-- The slots from the one at `b.slot_count` on.
slots_run :
    (cbs : Callbacks) (x : ℕ) (xs : List ℕ) (i : ℕ) (b : DmxBuffer) (p : DmxPort)
    → IsReceiving DmxState.slots i b p
    → b.slot_count + length (x ∷ xs) ≡ 513
    → (p' : DmxPort) × (rx_loop cbs (plains (x ∷ xs)) p ≡ ok p')
      × IsDelivered cbs i (take b.slot_count b.dmx ++ (x ∷ xs)) p'
unfolding rx_loop
slots_run cbs x [] i b p h total =
    let count : b.slot_count ≡ 512 = omega arith in
    let (p', q, delivered) = slot_last cbs x i b p h count in
    let whole =
      set_last b.dmx 512 x h.sized ∙ ap (λ (n : ℕ). take n b.dmx ++ (x ∷ [])) (sym count) in
    (p', rw q, subst (λ f. IsDelivered cbs i f p') whole delivered)
slots_run cbs x (y ∷ ys) i b p h total =
    let (p', q, h') = slot_more cbs x i b p h (omega arith) in
    let next : (b.slot_count + 1) % 2 ^ 16 ≡ b.slot_count + 1 = omega arith in
    let (p'', q', delivered) = slots_run cbs y ys i (appended x b) p' h' (omega arith) in
    let extended =
      ap (λ (n : ℕ). take n (set b.dmx b.slot_count x) ++ (y ∷ ys)) next
      ∙ ap (λ l. l ++ (y ∷ ys)) (take-set_next b.dmx b.slot_count x (omega (arith, h.sized)))
      ∙ append_assoc (take b.slot_count b.dmx) (x ∷ []) (y ∷ ys) in
    (p'', rw q q', subst (λ f. IsDelivered cbs i f p'') extended delivered)

-- After a break, the null start code and 512 slots are delivered as they came: the buffer holds
-- these 513 bytes, is marked valid and becomes the last valid frame, the new-frame callback (if
-- there is one) is called with it, the activity is DMX and the receiver waits for the next break.
pub frame_received :
    (cbs : Callbacks) (x : ℕ) (xs : List ℕ) (i : ℕ) (b : DmxBuffer) (p : DmxPort)
    → p.rx_state ≡ DmxState.start_code
    → p.current_rx ≡ some i
    → get_elem? p.buffers i ≡ some b
    → length b.dmx ≡ dmx_max_slots + 1
    → length (x ∷ xs) ≡ dmx_max_slots
    → (p' : DmxPort) × (rx_loop cbs (plain 0 ∷ plains (x ∷ xs)) p ≡ ok p')
      × IsDelivered cbs i (0 ∷ x ∷ xs) p'
unfolding rx_loop
frame_received cbs x xs i b p st at here sized total =
    let h : IsReceiving DmxState.start_code i b p = record {
      state = st;
      at = at;
      here = here;
      bound = bound_of p.buffers i b here;
      sized = sized;
    } in
    let (p', q, h') = slot_first cbs i b p h in
    let (p'', q', delivered) = slots_run cbs x xs i (started 0 b) p' h' (omega arith) in
    (
      p'',
      rw q q',
      subst (λ f. IsDelivered cbs i f p'')
          (ap (λ l. l ++ (x ∷ xs)) (take-set_next b.dmx 0 0 (omega (arith, sized)))) delivered,
    )
