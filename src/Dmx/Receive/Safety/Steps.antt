-- ===== src/Dmx/Receive/Safety/Steps.antt =====
-- The faults and the validity of each step of the receiver.
use samlibs.Base.{
  ℕ, ◌+◌, ◌≤◌, ◌<◌, ◌≡◌, refl, ap, sym, subst, inl, inr, List, [], ◌∷◌, ◌&&◌, Option, none, some,
  All, All-get, All-set, get_elem?, get_or, get_elem?-eq-get_or, set, length, length-set,
  get_elem?-set_self, arith, Result, ok, fault, ◌>>=◌, null_pointer, load_lem, Bool-cases,
  Option-cases, ltb, leb, ◌==◌, is_some, ltb→le,
}
use samlibs.Dmx.Port.{
  Action, emit, DmxBuffer, DmxState, DmxActivity, DmxPort, Callbacks, Received, dmx_buffering,
  dmx_max_slots, rdm_minimumframelength, rdm_startcode, dmx_startcode,
}
use samlibs.Dmx.Receive.{
  notify, push, push_new_frame, push_new_rdm_message, rx_break, rx_start_code, rx_slots, rx_rdm,
  rx_data, announce, rx_char, rx_loop,
}
use samlibs.Dmx.Receive.Safety.{IsBuffer, InRoom, Current, IsValid, Keeps, IsPolite, IsSafe}
use samlibs.Dmx.Receive.Equations.{
  appended, append_slot_lem, buffer_at_lem, buffer_at_null, started, after_start_code,
  rx_start_code_null, rx_start_code_lem,
}
use samlibs.Dmx.Receive.Safety.Push.{set-spare, push-IsPushed}

module _ (N : Type 0) where
  current-get :
      (p : DmxPort) (i : ℕ)
      → IsValid N p
      → p.current_rx ≡ some i
      → (b : DmxBuffer) × (i < dmx_buffering)
        × (get_elem? p.buffers i ≡ some b)
        × InRoom p.rx_state b.slot_count
        × IsBuffer b
  current-get p i v at =
      let (b, lt, e, room) = subst (Current N p.rx_state p.buffers) at v.current in
      (b, lt, e, room, All-get IsBuffer p.buffers i b v.sized e)

  -- A write into the buffer that is being received.
  set-IsValid :
      (p : DmxPort) (i : ℕ) (b c : DmxBuffer) (s : DmxState)
      → IsValid N p
      → p.current_rx ≡ some i
      → i < dmx_buffering
      → get_elem? p.buffers i ≡ some b
      → IsBuffer c
      → c.read ≡ b.read
      → InRoom s c.slot_count
      → IsValid N (record p { buffers = set p.buffers i c; rx_state = s })
  set-IsValid p i b c s v at lt e sound same room = record {
    enough = rw length-set v.enough;
    sized = All-set IsBuffer p.buffers i c v.sized sound;
    current =
        subst (Current N s (set p.buffers i c)) (sym at)
          (c, lt, get_elem?-set_self p.buffers i c (omega (arith, v.enough)), room);
    spare = set-spare N 3 p.buffers i b c e same v.spare;
  }

  appended-IsBuffer :
      (byte : ℕ) (b : DmxBuffer) → byte < 256 → IsBuffer b → IsBuffer (appended byte b)
  appended-IsBuffer byte b h (len, bytes) =
      (rw length-set len, All-set (λ x. x < 256) b.dmx b.slot_count byte bytes h)

  -- A state in which every buffer has room.
  into :
      (p : DmxPort) (s : DmxState)
      → ((n : ℕ) → InRoom s n)
      → IsValid N p
      → IsValid N (record p { rx_state = s })
  into p s any v = record {
    enough = v.enough;
    sized = v.sized;
    current = roomy p.current_rx v.current;
    spare = v.spare;
  }
    where
      roomy : (i : Option ℕ) → Current N p.rx_state p.buffers i → Current N s p.buffers i
      roomy none m = m
      roomy (some i) (b, lt, e, room) = (b, lt, e, any b.slot_count)

  one-InRoom : (byte : ℕ) → InRoom (after_start_code byte) 1
  one-InRoom byte = elim (Bool-cases (byte == dmx_startcode)) [
    | inl zero_code ↦ rw zero_code (omega arith)
    | inr other ↦ elim (Bool-cases (byte == rdm_startcode)) [
      | inl rdm_code ↦ rw (other, rdm_code) (omega arith)
      | inr none_code ↦ rw (other, none_code) tt
    ]
  ]

  emit-IsValid : (a : Action) (p : DmxPort) → IsValid N p → IsValid N (emit a p)
  emit-IsValid a p v = record {
    enough = v.enough;
    sized = v.sized;
    current = v.current;
    spare = v.spare;
  }

  announce-IsValid : (cbs : Callbacks) (p : DmxPort) → IsValid N p → IsValid N (announce cbs p)
  unfolding announce
  announce-IsValid cbs p v = elim (Bool-cases cbs.has_byte_received) [
    | inl set_up ↦ rw set_up (emit-IsValid Action.byte_received p v)
    | inr null ↦ rw null v
  ]

  module _ (cbs : Callbacks) (polite : IsPolite N cbs) where
    rx_break-IsSafe : (p : DmxPort) → IsValid N p → IsSafe N (rx_break cbs p)
    unfolding rx_break push_new_frame
    rx_break-IsSafe p v = elim (Option-cases p.current_rx) [
      | inl null ↦
          rw (buffer_at_null p null) (subst (Current N p.rx_state p.buffers) null v.current)
      | inr (i, at) ↦
          let (b, lt, e, room, sound) = current-get p i v at in
          elim (Bool-cases (b.slot_count == 0)) [
            | inl empty ↦
                rw (buffer_at_lem p i b at e, empty) (into p DmxState.start_code (λ n. tt) v)
            | inr some_slots ↦
                let (p', q, pushed) =
                  push-IsPushed N cbs.new_rx_frame p i b (λ j bs. (polite j bs).0)
                    (into p DmxState.idle (λ n. tt) v) at lt e in
                rw (buffer_at_lem p i b at e, some_slots, q)
                  (pushed DmxState.start_code p'.activity)
          ]
    ]

    -- A frame that is complete is pushed, with the character that completes it.
    complete-IsSafe :
        (cb : Option (Option ℕ → List DmxBuffer → List DmxBuffer)) (a : DmxActivity) (p : DmxPort)
        (i : ℕ) (b c : DmxBuffer)
        → ((j : Option ℕ) (bs : List DmxBuffer) → Keeps N bs (notify cb j bs))
        → IsValid N p
        → p.current_rx ≡ some i
        → i < dmx_buffering
        → get_elem? p.buffers i ≡ some b
        → IsBuffer c
        → c.read ≡ b.read
        → IsSafe N (do
          p' ← push cb (record p { buffers = set p.buffers i c })
          ok (record p' { activity = a; rx_state = DmxState.idle }))
    complete-IsSafe cb a p i b c gentle v at lt e sound same =
        let here = get_elem?-set_self p.buffers i c (omega (arith, v.enough)) in
        let w = set-IsValid p i b c DmxState.idle v at lt e sound same tt in
        let (p', q, pushed) =
          push-IsPushed N cb (record p { buffers = set p.buffers i c }) i c gentle w at lt here in
        rw q (pushed DmxState.idle a)

    rx_slots-IsSafe :
        (byte : ℕ) (p : DmxPort) (i : ℕ)
        → byte < 256
        → IsValid N p
        → p.rx_state ≡ DmxState.slots
        → p.current_rx ≡ some i
        → IsSafe N (rx_slots cbs byte p)
    unfolding rx_slots push_new_frame
    rx_slots-IsSafe byte p i small v st at =
        let (b, lt, e, room, sound) = current-get p i v at in
        let room' : b.slot_count ≤ 512 = subst (λ s. InRoom s b.slot_count) st room in
        let c = appended byte b in
        let c_sound = appended-IsBuffer byte b small sound in
        let q =
          append_slot_lem byte p i b at (omega (arith, v.enough)) e (omega (arith, sound.0)) in
        elim (Bool-cases (ltb dmx_max_slots c.slot_count)) [
          | inl full ↦
              rw (q, full)
                (complete-IsSafe cbs.new_rx_frame DmxActivity.dmx p i b c (λ j bs. (polite j bs).0)
                  v at lt e c_sound refl)
          | inr more ↦
              let fits : c.slot_count ≤ 512 = ltb→le dmx_max_slots c.slot_count more in
              rw (q, more)
                (set-IsValid p i b c p.rx_state v at lt e c_sound refl
                  (subst (λ s. InRoom s c.slot_count) (sym st) fits))
        ]

    rx_rdm-IsSafe :
        (byte : ℕ) (p : DmxPort) (i : ℕ)
        → byte < 256
        → IsValid N p
        → p.rx_state ≡ DmxState.rdm
        → p.current_rx ≡ some i
        → IsSafe N (rx_rdm cbs byte p)
    unfolding rx_rdm push_new_rdm_message
    rx_rdm-IsSafe byte p i small v st at =
        let (b, lt, e, room, sound) = current-get p i v at in
        let room' : b.slot_count ≤ 256 = subst (λ s. InRoom s b.slot_count) st room in
        let c = appended byte b in
        let c_sound = appended-IsBuffer byte b small sound in
        let q =
          append_slot_lem byte p i b at (omega (arith, v.enough)) e (omega (arith, sound.0)) in
        let len = get_or c.dmx 2 0 in
        let in_c : 2 < length c.dmx = omega (arith, c_sound.0) in
        let len_lt =
          All-get (λ x. x < 256) c.dmx 2 len c_sound.1 (get_elem?-eq-get_or c.dmx 2 0 in_c) in
        elim (Bool-cases (leb (len + 2) c.slot_count && leb rdm_minimumframelength c.slot_count)) [
          | inl full ↦
              rw (q, load_lem c.dmx 2 0 in_c, full)
                (complete-IsSafe cbs.new_rdm_message DmxActivity.rdm p i b c
                  (λ j bs. (polite j bs).1) v at lt e c_sound refl)
          | inr more ↦
              let fits : c.slot_count ≤ 256 = ground arith in
              rw (q, load_lem c.dmx 2 0 in_c, more)
                (set-IsValid p i b c p.rx_state v at lt e c_sound refl
                  (subst (λ s. InRoom s c.slot_count) (sym st) fits))
        ]

    rx_start_code-IsSafe :
        (byte : ℕ) (p : DmxPort) → byte < 256 → IsValid N p → IsSafe N (rx_start_code byte p)
    rx_start_code-IsSafe byte p small v = elim (Option-cases p.current_rx) [
      | inl null ↦
          rw (rx_start_code_null byte p null)
            (subst (Current N p.rx_state p.buffers) null v.current)
      | inr (i, at) ↦
          let (b, lt, e, _, sound) = current-get p i v at in
          let sound' : IsBuffer (started byte b) =
            (rw length-set sound.0, All-set (λ x. x < 256) b.dmx 0 byte sound.1 small) in
          rw (rx_start_code_lem byte p i b at (omega (arith, v.enough)) e (omega (arith, sound.0)))
            (set-IsValid p i b (started byte b) (after_start_code byte) v at lt e sound' refl
              (one-InRoom byte))
    ]

    rx_data-IsSafe :
        (s : DmxState) (byte : ℕ) (p : DmxPort)
        → byte < 256
        → IsValid N p
        → p.rx_state ≡ s
        → IsSafe N (rx_data cbs s byte p)
    unfolding rx_data
    rx_data-IsSafe DmxState.idle byte p small v st = v
    rx_data-IsSafe DmxState.start_code byte p small v st = rx_start_code-IsSafe byte p small v
    rx_data-IsSafe DmxState.slots byte p small v st = elim (Option-cases p.current_rx) [
      | inl null ↦ rw (ap is_some null) v
      | inr (i, at) ↦ rw (ap is_some at) (rx_slots-IsSafe byte p i small v st at)
    ]
    rx_data-IsSafe DmxState.rdm byte p small v st = elim (Option-cases p.current_rx) [
      | inl null ↦ rw (ap is_some null) v
      | inr (i, at) ↦ rw (ap is_some at) (rx_rdm-IsSafe byte p i small v st at)
    ]
    rx_data-IsSafe _ byte p small v st = into p DmxState.idle (λ n. tt) v

    rx_char-IsSafe :
        (r : Received) (p : DmxPort) → r.byte < 256 → IsValid N p → IsSafe N (rx_char cbs r p)
    unfolding rx_char
    rx_char-IsSafe r p small v =
        let v' = announce-IsValid cbs p v in
        elim (Bool-cases r.bufovf) [
          | inl overflow ↦ rw overflow (emit-IsValid Action.clear_bufovf (announce cbs p) v')
          | inr no_overflow ↦ elim (Bool-cases r.ferr) [
            | inl framing ↦ elim (Bool-cases r.pin_low) [
              | inl low ↦
                  rw (no_overflow, framing, low)
                    (rx_break-IsSafe (emit Action.clear_ferr (announce cbs p))
                      (emit-IsValid Action.clear_ferr (announce cbs p) v'))
              | inr high ↦
                  rw (no_overflow, framing, high)
                    (emit-IsValid Action.clear_ferr (announce cbs p) v')
            ]
            | inr character ↦
                rw (no_overflow, character)
                  (rx_data-IsSafe (announce cbs p).rx_state r.byte (announce cbs p) small v' refl)
          ]
        ]

    pub rx_loop-IsSafe :
        (rs : List Received) (p : DmxPort)
        → All (λ r. r.byte < 256) rs
        → IsValid N p
        → IsSafe N (rx_loop cbs rs p)
    unfolding rx_loop
    rx_loop-IsSafe [] p small v = v
    rx_loop-IsSafe (r ∷ rs) p small v =
        go (rx_char cbs r p) (rx_char-IsSafe r p small.0 v)
          (λ p' v'. rx_loop-IsSafe rs p' small.1 v')
      where
        go :
            (m : Result DmxPort)
            → IsSafe N m
            → ((p' : DmxPort) → IsValid N p' → IsSafe N (rx_loop cbs rs p'))
            → IsSafe N (m >>= λ p'. rx_loop cbs rs p')
        go (ok p') s f = f p' s
        go (fault null_pointer) s f = s
        go (fault g) s f = absurd s
