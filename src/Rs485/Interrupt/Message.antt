-- ===== src/Rs485/Interrupt/Message.antt =====
-- A message that is sent, from the call to the notification of its task.
use samlibs.Base.{
  ℕ, zero, suc, ◌+◌, ◌^◌, ◌≤◌, ◌<◌, ◌≡◌, refl, sym, ap, ◌∙◌, List, [], ◌∷◌, ◌++◌, append_assoc,
  Bool, true, false, some, length, length-append, Result, ok, ◌>>=◌, load-append, ◌==◌,
  if◌then◌else◌, arith,
}
use samlibs.Base.Bits.{bit_or_disjoint}
use samlibs.Rs485.Port.{
  Action, Field, Rs485Config, Rs485Status, clear_interrupts, set_interrupts, char_9bit,
}
use samlibs.Rs485.Send.{send_start, send_with, send_message}
use samlibs.Rs485.Interrupt.{
  Flags, tx_empty, tx_next, tx_last, tx_complete, rx_loop, error_loop, handle, handle_with,
  interrupt_handler,
}

-- The interrupts of a transmission: `n` with the data register empty, and one that finds the
-- transmission complete.
abbrev pub quiet : Bool → Flags
quiet txc = record { errors = 0; chars = []; dre = true; txc = txc }

pub drains : ℕ → Rs485Status → Result Rs485Status
drains zero s = interrupt_handler (quiet true) s
drains (suc n) s = interrupt_handler (quiet false) s >>= λ s'. drains n s'

abbrev pub data_writes : List ℕ → List Action
data_writes [] = []
data_writes (b ∷ bs) = Action.write_data b ∷ data_writes bs

-- What the last byte and the completed transmission add to the log.
abbrev pub finish : Rs485Config → List Action
finish c =
    Action.write_intenclr (2 ^ c.dre_pos)
    ∷ Action.write_intenset (2 ^ c.txc_pos)
    ∷ Action.clear_txc
    ∷ Action.write_intenclr 1
    ∷ Action.write_field Field.txen 0
    ∷ Action.pin_function c.rxpin c.pinmux
    ∷ Action.notify_task
    ∷ []

abbrev sending : Rs485Status → List ℕ → ℕ → Bool → Bool → List Action → Rs485Status
sending s memory i dre txc as' = record s {
  tx_buffer = some memory;
  tx_buffer_size = length memory;
  tx_buffer_index = i;
  dre_enabled = dre;
  txc_enabled = txc;
  log = as';
}

module _ (c : Rs485Config) (low : c.dre_pos ≡ 0) (next : c.txc_pos ≡ 1) (s : Rs485Status)
    (configured : s.config ≡ some c) (txc : Bool) where
  empty_next :
      (before bs : List ℕ) (b b' : ℕ) (l : List Action)
      → length before + 2 + length bs < 2 ^ 16
      → tx_empty c (sending s (before ++ (b ∷ b' ∷ bs)) (length before) true txc l)
        ≡ ok (
            sending s
              (before ++ (b ∷ b' ∷ bs))
              (suc (length before))
              true
              txc
              (l ++ (Action.write_data b ∷ [])))
  unfolding tx_empty tx_next tx_last
  empty_next before bs b b' l small =
      ground (arith, load-append before b (b' ∷ bs), length-append before (b ∷ b' ∷ bs))

  tx_last_done :
      (memory : List ℕ) (i : ℕ) (l : List Action)
      → length memory ≤ i
      → tx_last c (sending s memory i true txc l)
        ≡ sending s memory i false true (
            (l ++ (Action.write_intenclr (2 ^ c.dre_pos) ∷ []))
            ++ (Action.write_intenset (2 ^ c.txc_pos) ∷ []))
  unfolding tx_last clear_interrupts set_interrupts
  tx_last_done memory i l h = ground (arith, low, next)

  tx_next_byte :
      (before bs : List ℕ) (b : ℕ) (dre : Bool) (l : List Action)
      → length before + 1 + length bs < 2 ^ 16
      → tx_next
          (some (before ++ (b ∷ bs)))
          (sending s (before ++ (b ∷ bs)) (length before) dre txc l)
        ≡ ok (
            sending s
              (before ++ (b ∷ bs))
              (suc (length before))
              dre
              txc
              (l ++ (Action.write_data b ∷ [])))
  unfolding tx_next
  tx_next_byte before bs b dre l small =
      ground (arith, load-append before b bs, length-append before (b ∷ bs))

  empty_last :
      (before : List ℕ) (b : ℕ) (l : List Action)
      → length before + 1 < 2 ^ 16
      → tx_empty c (sending s (before ++ (b ∷ [])) (length before) true txc l)
        ≡ ok (
            sending s (before ++ (b ∷ [])) (suc (length before)) false true (
              ((l ++ (Action.write_data b ∷ [])) ++ (Action.write_intenclr (2 ^ c.dre_pos) ∷ []))
              ++ (Action.write_intenset (2 ^ c.txc_pos) ∷ [])))
  unfolding tx_empty
  empty_last before b l small =
      ap (λ r. r >>= λ s1. ok (tx_last c s1)) (tx_next_byte before [] b true l (omega arith))
      ∙ ap ok (
          tx_last_done (before ++ (b ∷ [])) (suc (length before)) (l ++ (Action.write_data b ∷ []))
            (omega (arith, length-append before (b ∷ []))))

  complete_done :
      (memory : List ℕ) (i : ℕ) (l : List Action)
      → length memory ≤ i
      → tx_complete c (sending s memory i false true l)
        ≡ sending s memory i false true (
            ((((l ++ (Action.clear_txc ∷ [])) ++ (Action.write_intenclr 1 ∷ []))
                ++ (Action.write_field Field.txen 0 ∷ []))
              ++ (Action.pin_function c.rxpin c.pinmux ∷ []))
            ++ (Action.notify_task ∷ []))
  unfolding tx_complete clear_interrupts
  complete_done memory i l h = ground (arith, low, next)

  -- One interrupt, by the equation of its branch.
  interrupt_empty :
      (memory : List ℕ) (i : ℕ) (l : List Action) (s' : Rs485Status)
      → tx_empty c (sending s memory i true txc l) ≡ ok s'
      → interrupt_handler (quiet false) (sending s memory i true txc l) ≡ ok s'
  unfolding interrupt_handler handle rx_loop error_loop
  interrupt_empty memory i l s' h =
      ap (λ o. handle_with o (quiet false) (sending s memory i true txc l)) configured
      ∙ ap (λ r. r >>= λ s2. ok s2) h

  interrupt_complete :
      (memory : List ℕ) (i : ℕ) (l : List Action)
      → interrupt_handler (quiet true) (sending s memory i false true l)
        ≡ ok (tx_complete c (sending s memory i false true l))
  unfolding interrupt_handler handle rx_loop error_loop
  interrupt_complete memory i l =
      ap (λ o. handle_with o (quiet true) (sending s memory i false true l)) configured

  finish-append :
      (l : List Action) (b : ℕ)
      → (((((((l ++ (Action.write_data b ∷ [])) ++ (Action.write_intenclr (2 ^ c.dre_pos) ∷ []))
                    ++ (Action.write_intenset (2 ^ c.txc_pos) ∷ []))
                  ++ (Action.clear_txc ∷ []))
                ++ (Action.write_intenclr 1 ∷ []))
              ++ (Action.write_field Field.txen 0 ∷ []))
            ++ (Action.pin_function c.rxpin c.pinmux ∷ []))
          ++ (Action.notify_task ∷ [])
        ≡ l ++ (Action.write_data b ∷ finish c)
  finish-append [] b = refl
  finish-append (a ∷ l) b = ap (◌∷◌ a) (finish-append l b)

  -- The same for a memory that is known by an equation.
  next_at :
      (m before bs : List ℕ) (b b' : ℕ) (l : List Action)
      → m ≡ before ++ (b ∷ b' ∷ bs)
      → length before + 2 + length bs < 2 ^ 16
      → tx_empty c (sending s m (length before) true txc l)
        ≡ ok (sending s m (suc (length before)) true txc (l ++ (Action.write_data b ∷ [])))
  next_at m before bs b b' l e small = rw e (empty_next before bs b b' l small)

  last_at :
      (m before : List ℕ) (b : ℕ) (l : List Action)
      → m ≡ before ++ (b ∷ [])
      → length before + 1 < 2 ^ 16
      → drains 1 (sending s m (length before) true txc l)
        ≡ ok (sending s m (suc (length before)) false true (l ++ (Action.write_data b ∷ finish c)))
  unfolding drains
  last_at m before b l e small =
      ap (λ r. r >>= λ s'. interrupt_handler (quiet true) s')
        (interrupt_empty m (length before) l _ (rw e (empty_last before b l small)))
      ∙ interrupt_complete m (suc (length before)) _
      ∙ ap ok (
          complete_done m (suc (length before)) _
            (omega (arith, ap length e, length-append before (b ∷ []))))
      ∙ ap (λ l'. ok (sending s m (suc (length before)) false true l')) (finish-append l b)

  drained :
      (m before bs : List ℕ) (b : ℕ) (l : List Action)
      → m ≡ before ++ (b ∷ bs)
      → length before + suc (length bs) < 2 ^ 16
      → drains (suc (length bs)) (sending s m (length before) true txc l)
        ≡ ok (
            sending s m
              (length before + suc (length bs))
              false
              true
              (l ++ (data_writes (b ∷ bs) ++ finish c)))
  unfolding drains
  drained m before [] b l e h =
      last_at m before b l e h
      ∙ ap (λ i. ok (sending s m i false true (l ++ (Action.write_data b ∷ finish c))))
          (omega arith)
  drained m before (b' ∷ bs) b l e h =
      ap (λ r. r >>= λ s'. drains (suc (length bs)) s')
        (interrupt_empty m (length before) l _ (next_at m before bs b b' l e (omega arith)))
      ∙ ap
          (λ i. drains (suc (length bs)) (sending s m i true txc (l ++ (Action.write_data b ∷ []))))
          (omega (arith, length-append before (b ∷ [])))
      ∙ drained m (before ++ (b ∷ [])) bs b' (l ++ (Action.write_data b ∷ []))
          (e ∙ sym (append_assoc before (b ∷ []) (b' ∷ bs)))
          (omega (arith, length-append before (b ∷ []), h))
      ∙ ap (λ i. ok (sending s m i false true ((l ++ (Action.write_data b ∷ [])) ++ rest)))
          (omega (arith, length-append before (b ∷ [])))
      ∙ ap (λ l'. ok (sending s m (length before + suc (suc (length bs))) false true l'))
          (append_assoc l (Action.write_data b ∷ []) rest)
    where
      rest : List Action
      rest = data_writes (b' ∷ bs) ++ finish c

-- The task's wait for its notification while the interrupts of `n` bytes run.
abbrev pub waiting : ℕ → Rs485Status → Result (Bool × Rs485Status)
waiting n s = drains n s >>= λ s'. ok (true, s')

abbrev pub first_word : Rs485Config → ℕ → ℕ
first_word c first = if c.character_size == char_9bit then 2 ^ 8 + first else first

-- What the call itself adds to the log.
abbrev pub start : Rs485Config → ℕ → List Action
start c first =
    Action.write_field Field.txen 1
    ∷ Action.pin_function_off c.rxpin
    ∷ Action.write_data (first_word c first)
    ∷ Action.clear_txc
    ∷ Action.write_intenset (2 ^ c.dre_pos)
    ∷ []

enable_dre :
    (c : Rs485Config) (s : Rs485Status)
    → c.dre_pos ≡ 0
    → c.txc_pos ≡ 1
    → set_interrupts c (2 ^ c.dre_pos) s
      ≡ record s { dre_enabled = true; log = s.log ++ (Action.write_intenset (2 ^ c.dre_pos) ∷ []) }
unfolding set_interrupts
enable_dre c s low next = ground (arith, low, next)

start_lem :
    (c : Rs485Config) (s : Rs485Status) (first : ℕ) (bs : List ℕ)
    → c.dre_pos ≡ 0
    → c.txc_pos ≡ 1
    → first < 2 ^ 8
    → send_start c (some (first ∷ bs)) (length (first ∷ bs)) s
      ≡ ok (sending s (first ∷ bs) 1 true s.txc_enabled (s.log ++ start c first))
unfolding send_start set_interrupts
start_lem c s first bs low next h =
    ap (λ w. ok (set_interrupts c (2 ^ c.dre_pos) (writing w)))
      (ap (λ w. if c.character_size == char_9bit then w else first) (bit_or_disjoint 8 1 first h))
    ∙ ap ok (enable_dre c (writing (first_word c first)) low next)
    ∙ ap (λ l. ok (sending s (first ∷ bs) 1 true s.txc_enabled l))
        (append_assoc s.log
          (Action.write_field Field.txen 1
            ∷ Action.pin_function_off c.rxpin
            ∷ Action.write_data (first_word c first)
            ∷ Action.clear_txc
            ∷ [])
          (Action.write_intenset (2 ^ c.dre_pos) ∷ []))
  where
    writing : ℕ → Rs485Status
    writing w = sending s (first ∷ bs) 1 s.dre_enabled s.txc_enabled (
        s.log
        ++ (Action.write_field Field.txen 1
            ∷ Action.pin_function_off c.rxpin
            ∷ Action.write_data w
            ∷ Action.clear_txc
            ∷ []))

clear_last :
    (c : Rs485Config) (s : Rs485Status) (m : List ℕ) (i : ℕ) (l : List Action)
    → c.dre_pos ≡ 0
    → c.txc_pos ≡ 1
    → clear_interrupts c 1 (sending s m i false true l)
      ≡ sending s m i false true (l ++ (Action.write_intenclr 1 ∷ []))
unfolding clear_interrupts
clear_last c s m i l low next = ground (arith, low, next)

-- The port behind a sent message.
abbrev pub message_sent : Rs485Config → List ℕ → List Action → Rs485Status → Rs485Status
message_sent c memory sent s = record s {
  tx_buffer = some memory;
  tx_buffer_size = length memory;
  tx_buffer_index = length memory;
  dre_enabled = false;
  txc_enabled = true;
  log = (s.log ++ sent) ++ (Action.write_intenclr 1 ∷ []);
}

-- `xRs485SendMessage` and its interrupts put a whole message on the line: on a device whose flags
-- DRE and TXC are the bits 0 and 1, for a message of two bytes or more and less than 65536, the call enables the
-- transmitter and detaches the receiving pin, writes the first byte, with the address bit where
-- characters have nine bits, then every interrupt writes the next byte in order, and the end of
-- the transmission disables the transmitter, attaches the pin and notifies the task; the call
-- passes. The interrupt TXC stays enabled.
pub send_message_lem :
    (c : Rs485Config) (s : Rs485Status) (first b : ℕ) (bs : List ℕ)
    → c.dre_pos ≡ 0
    → c.txc_pos ≡ 1
    → s.config ≡ some c
    → first < 2 ^ 8
    → length (first ∷ b ∷ bs) < 2 ^ 16
    → send_message (waiting (length (b ∷ bs))) (some (first ∷ b ∷ bs)) (length (first ∷ b ∷ bs)) s
      ≡ ok (
        true,
        message_sent c (first ∷ b ∷ bs) (start c first ++ (data_writes (b ∷ bs) ++ finish c)) s,
      )
unfolding send_message send_with
send_message_lem c s first b bs low next configured h small =
    ap (λ o. send_with (waiting (suc (length bs))) (some m) (length m) s o) configured
    ∙ ap (λ r. r >>= λ s1. waiting (suc (length bs)) s1 >>= λ w. ok (w.0, clear_interrupts c 1 w.1))
        (start_lem c s first (b ∷ bs) low next h)
    ∙ ap (λ r. notified r >>= λ w. ok (w.0, clear_interrupts c 1 w.1))
        (drained c low next s configured s.txc_enabled m (first ∷ []) bs b (s.log ++ start c first)
          refl (omega arith))
    ∙ ap (λ s'. ok (true, s')) (clear_last c s m (1 + suc (length bs)) _ low next)
    ∙ ap
        (λ i. ok (
          true,
          sending s m i false true (
              ((s.log ++ start c first) ++ (data_writes (b ∷ bs) ++ finish c))
              ++ (Action.write_intenclr 1 ∷ [])),
        ))
        (omega arith)
    ∙ ap (λ l. ok (true, sending s m (length m) false true (l ++ (Action.write_intenclr 1 ∷ []))))
        (append_assoc s.log (start c first) (data_writes (b ∷ bs) ++ finish c))
  where
    notified : Result Rs485Status → Result (Bool × Rs485Status)
    notified r = r >>= λ s'. ok (true, s')

    m : List ℕ
    m = first ∷ b ∷ bs
