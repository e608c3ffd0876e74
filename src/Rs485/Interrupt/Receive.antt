-- ===== src/Rs485/Interrupt/Receive.antt =====
-- What the handler does with the characters that arrive.
use samlibs.Base.{
  ℕ, suc, ◌+◌, ◌-◌, ◌/◌, ◌%◌, ◌^◌, ◌≤◌, ◌<◌, ◌≡◌, refl, ap, ◌∙◌, List, [], ◌∷◌, ◌++◌, true, false,
  Option, none, some, length, set, drop, fill, fill_all, All, Result, ok, ◌>>=◌, ◌==◌,
  if◌then◌else◌, length-set, arith,
}
use samlibs.Rs485.Port.{Action, Rs485Status}
use samlibs.Rs485.Interrupt.{rx_store, rx_deliver, rx_char, rx_loop}

abbrev IsByte : ℕ → Type 0
IsByte c = c < 2 ^ 8

-- The port while the index is `i` and the buffer holds `buffer`.
abbrev filling : Rs485Status → List ℕ → ℕ → Rs485Status
filling s buffer i = record s { rx_buffer = some buffer; rx_buffer_index = i }

-- The port once a whole message is in the buffer.
abbrev pub delivered : Rs485Status → List ℕ → Rs485Status
delivered s buffer = record s {
  rx_buffer = some buffer;
  rx_buffer_index = s.rx_buffer_size + 1;
  log = if s.has_rx_queue then s.log ++ (Action.queue_send (some buffer) ∷ []) else s.log;
}

-- A round of the loop behind the reset of the index.
abbrev stored : ℕ → Rs485Status → Result Rs485Status
stored c s = rx_store c s.rx_buffer s >>= λ s1. ok (rx_deliver s1)

plain_char : (s : Rs485Status) (c : ℕ) → IsByte c → rx_char c s ≡ stored c s
unfolding rx_char
plain_char s c hc = rw (low_bit c hc)
  where
    low_bit : (c : ℕ) → IsByte c → ((c / 2 ^ 8) % 2 == 1) ≡ false
    low_bit c h = ground arith

address_char :
    (s : Rs485Status) (a : ℕ)
    → IsByte a
    → rx_char (2 ^ 8 + a) s ≡ stored (2 ^ 8 + a) (record s { rx_buffer_index = 0 })
unfolding rx_char
address_char s a ha = rw (high_bit a ha)
  where
    high_bit : (a : ℕ) → IsByte a → (((2 ^ 8 + a) / 2 ^ 8) % 2 == 1) ≡ true
    high_bit a h = ground arith

module _ (s : Rs485Status) (buffer : List ℕ) (small : s.rx_buffer_size < 2 ^ 16 - 1)
    (fits : s.rx_buffer_size ≤ length buffer) where
  stored_next :
      (c i : ℕ)
      → i + 1 < s.rx_buffer_size
      → stored c (filling s buffer i) ≡ ok (filling s (set buffer i (c % 2 ^ 8)) (suc i))
  unfolding rx_store rx_deliver
  stored_next c i hi = ground arith

  stored_last :
      (c i : ℕ)
      → i + 1 ≡ s.rx_buffer_size
      → stored c (filling s buffer i) ≡ ok (delivered s (set buffer i (c % 2 ^ 8)))
  unfolding rx_store rx_deliver
  stored_last c i hi = ground arith

stored_ignored :
    (s : Rs485Status) (c : ℕ) → s.rx_buffer_size < s.rx_buffer_index → stored c s ≡ ok s
unfolding rx_store rx_deliver
stored_ignored s c h = past s.rx_buffer
  where
    past : (b : Option (List ℕ)) → (rx_store c b s >>= λ s1. ok (rx_deliver s1)) ≡ ok s
    past none = ground arith
    past (some buffer) = ground arith

ignored :
    (s : Rs485Status) (ds : List ℕ)
    → All IsByte ds
    → s.rx_buffer_size < s.rx_buffer_index
    → rx_loop ds s ≡ ok s
unfolding rx_loop
ignored s [] hd h = refl
ignored s (d ∷ ds) hd h =
    ap (λ r. r >>= λ s'. rx_loop ds s') (plain_char s d hd.0 ∙ stored_ignored s d h)
    ∙ ignored s ds hd.1 h

module _ (s : Rs485Status) (small : s.rx_buffer_size < 2 ^ 16 - 1) (ds : List ℕ)
    (plain : All IsByte ds) where
  -- From the character `w`, whose byte is `c`, to the end.
  rest_received :
      (w c i : ℕ) (cs buffer : List ℕ)
      → w % 2 ^ 8 ≡ c
      → All IsByte cs
      → s.rx_buffer_size ≤ length buffer
      → i + suc (length cs) ≡ s.rx_buffer_size
      → (stored w (filling s buffer i) >>= λ s'. rx_loop (cs ++ ds) s')
        ≡ ok (delivered s (fill buffer i (c ∷ cs)))
  unfolding rx_loop
  rest_received w c i [] buffer hw hcs fits hi =
      ap (λ r. r >>= λ s'. rx_loop ds s') (stored_last s buffer small fits w i (omega arith))
      ∙ ignored (delivered s (set buffer i (w % 2 ^ 8))) ds plain (omega arith)
      ∙ ap (λ v. ok (delivered s (set buffer i v))) hw
  rest_received w c i (c' ∷ cs) buffer hw hcs fits hi =
      ap (λ r. r >>= λ s'. rx_loop (c' ∷ (cs ++ ds)) s')
        (stored_next s buffer small fits w i (omega arith))
      ∙ ap (λ r. r >>= λ s'. rx_loop (cs ++ ds) s')
          (plain_char (filling s (set buffer i (w % 2 ^ 8)) (suc i)) c' hcs.0)
      ∙ rest_received c' c' (suc i) cs (set buffer i (w % 2 ^ 8)) (omega (arith, hcs.0)) hcs.1
          (omega (arith, length-set buffer i (w % 2 ^ 8))) (omega arith)
      ∙ ap (λ v. ok (delivered s (fill (set buffer i v) (suc i) (c' ∷ cs)))) hw

-- A message is received whole and once: where the buffer has room for `rxBufferSize` bytes, less
-- than 65535, an address character, at whatever index the port stands, and the plain
-- characters that fill the buffer are written to its front and sent to the queue, when there is
-- one; the plain characters that follow change nothing.
pub message_received :
    (s : Rs485Status) (buffer : List ℕ) (a : ℕ) (cs ds : List ℕ)
    → s.rx_buffer ≡ some buffer
    → s.rx_buffer_size ≤ length buffer
    → s.rx_buffer_size < 2 ^ 16 - 1
    → suc (length cs) ≡ s.rx_buffer_size
    → a < 2 ^ 8
    → All (λ c. c < 2 ^ 8) cs
    → All (λ c. c < 2 ^ 8) ds
    → rx_loop ((2 ^ 8 + a) ∷ (cs ++ ds)) s
      ≡ ok (delivered s (a ∷ cs ++ drop s.rx_buffer_size buffer))
unfolding rx_loop
message_received s buffer a cs ds hb fits small hn ha hcs hds =
    ap (λ r. r >>= λ s'. rx_loop (cs ++ ds) s')
      (address_char s a ha
        ∙ ap (λ b. stored (2 ^ 8 + a) (record s { rx_buffer = b; rx_buffer_index = 0 })) hb)
    ∙ rest_received s small ds hds (2 ^ 8 + a) a 0 cs buffer (omega arith) hcs fits (omega arith)
    ∙ ap (λ b. ok (delivered s b))
        (fill_all buffer (a ∷ cs) (omega arith) ∙ ap (λ n. a ∷ cs ++ drop n buffer) hn)
