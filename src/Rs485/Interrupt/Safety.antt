-- ===== src/Rs485/Interrupt/Safety.antt =====
-- The accesses of the handler to memory, for every input.
use samlibs.Base.{
  ℕ, zero, suc, ◌+◌, ◌%◌, ◌^◌, ◌≤◌, ◌<◌, ◌≡◌, refl, ap, ◌∙◌, List, [], ◌∷◌, ◌&&◌, Option, none,
  some, length, set, length-set, get_or, load_lem, store_lem, ltb, leb, ◌==◌, ltb→lt, Result, ok,
  ◌>>=◌, if◌then◌else◌, if-both, arith,
}
use samlibs.Rs485.Port.{Action, emit, Rs485Config, Rs485Status, clear_interrupts, set_interrupts}
use samlibs.Rs485.Interrupt.{
  Flags, is_address, error_loop, rx_reset, rx_store, rx_deliver, rx_char, rx_loop, tx_next, tx_last,
  tx_empty, tx_complete, handle, handle_with, interrupt_handler,
}

-- A buffer has room for `size` bytes, or is NULL.
abbrev pub HasRoom : Option (List ℕ) → ℕ → Type 0
HasRoom none size = Unit
HasRoom (some buffer) size = size ≤ length buffer

abbrev pub IsSafe : Rs485Status → Type 0
IsSafe s = HasRoom s.rx_buffer s.rx_buffer_size × HasRoom s.tx_buffer s.tx_buffer_size

-- The result is a port that is safe again.
abbrev pub Succeeds : Result Rs485Status → Type 0
Succeeds r = (s : Rs485Status) × (r ≡ ok s) × IsSafe s

Succeeds-bind :
    (r : Result Rs485Status) (f : Rs485Status → Result Rs485Status)
    → Succeeds r
    → ((s : Rs485Status) → IsSafe s → Succeeds (f s))
    → Succeeds (r >>= f)
Succeeds-bind r f (s, e, h) hf = let next = hf s h in (next.0, ap (λ q. q >>= f) e ∙ next.1, next.2)

rx_store-Succeeds :
    (c : ℕ) (b : Option (List ℕ)) (s : Rs485Status)
    → HasRoom b s.rx_buffer_size
    → IsSafe s
    → Succeeds (rx_store c b s)
unfolding rx_store
rx_store-Succeeds c none s hb h = (s, refl, h)
rx_store-Succeeds c (some buffer) s hb h =
    if-both Succeeds (ltb s.rx_buffer_index s.rx_buffer_size) _ _
      (λ e.
        let inside : s.rx_buffer_index < length buffer = omega (arith, ltb→lt _ _ e, hb) in
        (
          record s {
            rx_buffer = some (set buffer s.rx_buffer_index (c % 2 ^ 8));
            rx_buffer_index = (s.rx_buffer_index + 1) % 2 ^ 16;
          },
          ap
              (λ r. r >>= λ b'. ok (record s {
                rx_buffer = some b';
                rx_buffer_index = (s.rx_buffer_index + 1) % 2 ^ 16;
              }))
              (store_lem buffer s.rx_buffer_index (c % 2 ^ 8) inside),
          (omega (arith, length-set buffer s.rx_buffer_index (c % 2 ^ 8), hb), h.1),
        ))
      (s, refl, h)

tx_next-Succeeds :
    (b : Option (List ℕ)) (s : Rs485Status)
    → HasRoom b s.tx_buffer_size
    → IsSafe s
    → Succeeds (tx_next b s)
unfolding tx_next
tx_next-Succeeds none s hb h = (s, refl, h)
tx_next-Succeeds (some buffer) s hb h =
    if-both Succeeds (ltb s.tx_buffer_index s.tx_buffer_size) _ _
      (λ e.
        let inside : s.tx_buffer_index < length buffer = omega (arith, ltb→lt _ _ e, hb) in
        (
          written (get_or buffer s.tx_buffer_index 0),
          ap (λ r. r >>= λ byte. ok (written byte)) (load_lem buffer s.tx_buffer_index 0 inside),
          h,
        ))
      (s, refl, h)
  where
    written : ℕ → Rs485Status
    written byte = record (emit (Action.write_data byte) s) {
      tx_buffer_index = (s.tx_buffer_index + 1) % 2 ^ 16;
    }

rx_deliver-IsSafe : (s : Rs485Status) → IsSafe s → IsSafe (rx_deliver s)
unfolding rx_deliver
rx_deliver-IsSafe s h = if-both IsSafe (s.rx_buffer_index == s.rx_buffer_size) _ _ (λ e. h) h

tx_last-IsSafe : (c : Rs485Config) (s : Rs485Status) → IsSafe s → IsSafe (tx_last c s)
unfolding tx_last clear_interrupts set_interrupts
tx_last-IsSafe c s h = if-both IsSafe (leb s.tx_buffer_size s.tx_buffer_index) _ _ (λ e. h) h

tx_complete-IsSafe : (c : Rs485Config) (s : Rs485Status) → IsSafe s → IsSafe (tx_complete c s)
unfolding tx_complete clear_interrupts
tx_complete-IsSafe c s h = if-both IsSafe (leb s.tx_buffer_size s.tx_buffer_index) _ _ (λ e. h) h

error_loop-IsSafe : (n : ℕ) (s : Rs485Status) → IsSafe s → IsSafe (error_loop n s)
unfolding error_loop
error_loop-IsSafe zero s h = h
error_loop-IsSafe (suc n) s h = error_loop-IsSafe n _ h

rx_reset-IsSafe : (c : ℕ) (s : Rs485Status) → IsSafe s → IsSafe (rx_reset c s)
rx_reset-IsSafe c s h = if-both IsSafe (is_address c) _ _ (λ e. h) h

rx_char-Succeeds : (c : ℕ) (s : Rs485Status) → IsSafe s → Succeeds (rx_char c s)
unfolding rx_char
rx_char-Succeeds c s h =
    let safe = rx_reset-IsSafe c s h in
    Succeeds-bind _ _ (rx_store-Succeeds c (rx_reset c s).rx_buffer (rx_reset c s) safe.0 safe)
      (λ s1 h1. (rx_deliver s1, refl, rx_deliver-IsSafe s1 h1))

rx_loop-Succeeds : (cs : List ℕ) (s : Rs485Status) → IsSafe s → Succeeds (rx_loop cs s)
unfolding rx_loop
rx_loop-Succeeds [] s h = (s, refl, h)
rx_loop-Succeeds (c ∷ cs) s h =
    Succeeds-bind _ _ (rx_char-Succeeds c s h) (λ s1 h1. rx_loop-Succeeds cs s1 h1)

tx_empty-Succeeds : (c : Rs485Config) (s : Rs485Status) → IsSafe s → Succeeds (tx_empty c s)
unfolding tx_empty
tx_empty-Succeeds c s h =
    Succeeds-bind _ _ (tx_next-Succeeds s.tx_buffer s h.1 h)
      (λ s1 h1. (tx_last c s1, refl, tx_last-IsSafe c s1 h1))

handle-Succeeds :
    (c : Rs485Config) (f : Flags) (s : Rs485Status) → IsSafe s → Succeeds (handle c f s)
unfolding handle
handle-Succeeds c f s h =
    Succeeds-bind _ _ (rx_loop-Succeeds f.chars _ (error_loop-IsSafe f.errors s h)) (λ s1 h1.
      Succeeds-bind _ _
        (if-both Succeeds (f.dre && s1.dre_enabled) _ _ (λ e. tx_empty-Succeeds c s1 h1)
          (s1, refl, h1))
        (λ s2 h2. (
          if f.txc && s2.txc_enabled then tx_complete c s2 else s2,
          refl,
          if-both IsSafe (f.txc && s2.txc_enabled) _ _ (λ e. tx_complete-IsSafe c s2 h2) h2,
        )))

handle_with-Succeeds :
    (o : Option Rs485Config) (f : Flags) (s : Rs485Status) → IsSafe s → Succeeds (handle_with o f s)
handle_with-Succeeds none f s h = (s, refl, h)
handle_with-Succeeds (some c) f s h = handle-Succeeds c f s h

pub interrupt_handler-Succeeds :
    (f : Flags) (s : Rs485Status) → IsSafe s → Succeeds (interrupt_handler f s)
unfolding interrupt_handler
interrupt_handler-Succeeds f s h = handle_with-Succeeds s.config f s h
