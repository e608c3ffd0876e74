-- ===== src/SpiShiftRegisters/Transfer.antt =====
-- A blocking transfer.
use samlibs.Base.{
  ℕ, zero, suc, ◌+◌, ◌%◌, ◌^◌, ◌≤◌, ◌<◌, ◌≡◌, refl, ap, ◌∙◌, List, [], ◌∷◌, ◌++◌, append_assoc,
  length, length-set, get_or, set, fill, fill_all, drop, some, ltb, lt→ltb, le→ltb, if◌then◌else◌,
  Result, ok, ◌>>=◌, load_lem, store_lem, arith,
}
use samlibs.SpiShiftRegisters.{
  Action, SpiShiftRegistersConfig, emits, send_next, take_next, round, exchange, latch, transfer,
}

-- The port after `i` rounds.
abbrev under_way :
    SpiShiftRegistersConfig → List ℕ → List ℕ → ℕ → ℕ → ℕ → List Action → SpiShiftRegistersConfig
under_way s write read size i k l = record s {
  write_message = some write;
  read_message = some read;
  message_size = size;
  read_index = i;
  write_index = suc i;
  looks = k;
  log = l;
}

-- The bytes that arrive, and what the rounds that take them add to the log, where the round `i`
-- sends the byte behind that of the index `i`.
abbrev pub arriving : (ℕ → ℕ) → ℕ → ℕ → List ℕ
arriving miso k zero = []
arriving miso k (suc n) = miso k ∷ arriving miso (suc k) n

length-arriving : (miso : ℕ → ℕ) (k n : ℕ) → length (arriving miso k n) ≡ n
length-arriving miso k zero = refl
length-arriving miso k (suc n) = ap suc (length-arriving miso (suc k) n)

abbrev pub rounds_log : List ℕ → ℕ → ℕ → List Action
rounds_log write i zero = []
rounds_log write i (suc n) =
    Action.await_txc ∷ Action.write_data (get_or write (suc i) 0) ∷ rounds_log write (suc i) n

module _ (s : SpiShiftRegistersConfig) (miso : ℕ → ℕ) (write : List ℕ) (size : ℕ)
    (small : size < 2 ^ 32) (enough : size ≤ length write) where
  one_round :
      (read : List ℕ) (i k : ℕ) (l : List Action)
      → suc i < size
      → i < length read
      → round miso (under_way s write read size i k l)
        ≡ ok (
            under_way s write
              (set read i (miso k))
              size
              (suc i)
              (suc k)
              ((l ++ (Action.await_txc ∷ [])) ++ (Action.write_data (get_or write (suc i) 0) ∷ [])))
  unfolding round take_next send_next
  one_round read i k l h fits =
      ap
        (λ r.
          (r >>= λ m.
          ok (record (under_way s write m size ((i + 1) % 2 ^ 32) (suc k) l1) {
            write_index = suc i;
          }))
          >>= λ s1. send_next s1.write_message s1)
        (store_lem read i (miso k) fits)
      ∙ ap (λ r. r >>= λ v. ok (sent v ((i + 1) % 2 ^ 32) ((suc i + 1) % 2 ^ 32)))
          (load_lem write (suc i) 0 (omega arith))
      ∙ ap (λ j. ok (sent (get_or write (suc i) 0) j ((suc i + 1) % 2 ^ 32))) {x = (i + 1) % 2 ^ 32}
          {y = suc i} (omega arith)
      ∙ ap (λ j. ok (sent (get_or write (suc i) 0) (suc i) j)) {x = (suc i + 1) % 2 ^ 32}
          {y = suc (suc i)} (omega arith)
    where
      l1 : List Action
      l1 = l ++ (Action.await_txc ∷ [])

      sent : ℕ → ℕ → ℕ → SpiShiftRegistersConfig
      sent v j j' =
          record (under_way s write (set read i (miso k)) size j (suc k)
            (l1 ++ (Action.write_data v ∷ []))) { write_index = j' }

  abbrev going : ℕ → SpiShiftRegistersConfig → Result SpiShiftRegistersConfig
  going fuel s1 = if ltb s1.write_index s1.message_size then exchange fuel miso s1 else ok s1

  -- The rounds from the index `i` on, of which there are `suc n`.
  exchanged :
      (n fuel i k : ℕ) (read : List ℕ) (l : List Action)
      → n < fuel
      → i + suc n + 1 ≡ size
      → i + suc n ≤ length read
      → exchange fuel miso (under_way s write read size i k l)
        ≡ ok (
            under_way s write
              (fill read i (arriving miso k (suc n)))
              size
              (i + suc n)
              (k + suc n)
              (l ++ rounds_log write i (suc n)))
  unfolding exchange
  exchanged n zero i k read l hf h fits = absurd (omega arith)
  exchanged zero (suc fuel) i k read l hf h fits =
      ap (λ r. r >>= going fuel) (one_round read i k l (omega arith) (omega arith))
      ∙ ap (λ b. if b then exchange fuel miso next else ok next)
          (le→ltb (suc (suc i)) size (omega arith))
      ∙ ap (λ j. ok (record next { read_index = j; write_index = suc j })) {x = suc i} {y = i + 1}
          (omega arith)
      ∙ ap (λ j. ok (record next { read_index = i + 1; write_index = suc (i + 1); looks = j }))
          {x = suc k} {y = k + 1} (omega arith)
      ∙ ap (λ l'. ok (under_way s write (set read i (miso k)) size (i + 1) (k + 1) l'))
          (append_assoc l (Action.await_txc ∷ []) (Action.write_data (get_or write (suc i) 0) ∷ []))
    where
      next : SpiShiftRegistersConfig
      next =
          under_way s write (set read i (miso k)) size (suc i) (suc k)
            ((l ++ (Action.await_txc ∷ [])) ++ (Action.write_data (get_or write (suc i) 0) ∷ []))
  exchanged (suc n) (suc fuel) i k read l hf h fits =
      ap (λ r. r >>= going fuel) (one_round read i k l (omega arith) (omega arith))
      ∙ ap (λ b. if b then exchange fuel miso next else ok next)
          (lt→ltb (suc (suc i)) size (omega arith))
      ∙ exchanged n fuel (suc i) (suc k) (set read i (miso k)) l1 (omega arith) (omega arith)
          (omega (arith, length-set read i (miso k)))
      ∙ ap
          (λ j. ok (
            under_way s write message size j (suc k + suc n)
              (l1 ++ rounds_log write (suc i) (suc n))))
          {x = suc i + suc n} {y = i + suc (suc n)} (omega arith)
      ∙ ap
          (λ j. ok (
            under_way s write message size (i + suc (suc n)) j
              (l1 ++ rounds_log write (suc i) (suc n))))
          {x = suc k + suc n} {y = k + suc (suc n)} (omega arith)
      ∙ ap (λ l'. ok (under_way s write message size (i + suc (suc n)) (k + suc (suc n)) l'))
          (append_assoc (l ++ (Action.await_txc ∷ []))
              (Action.write_data (get_or write (suc i) 0) ∷ []) rest
            ∙ append_assoc l (Action.await_txc ∷ [])
                (Action.write_data (get_or write (suc i) 0) ∷ rest))
    where
      l1 : List Action
      l1 = (l ++ (Action.await_txc ∷ [])) ++ (Action.write_data (get_or write (suc i) 0) ∷ [])

      rest : List Action
      rest = rounds_log write (suc i) (suc n)

      message : List ℕ
      message = fill (set read i (miso k)) (suc i) (arriving miso (suc k) (suc n))

      next : SpiShiftRegistersConfig
      next = under_way s write (set read i (miso k)) size (suc i) (suc k) l1

-- `vSpiRegistersReadWriteRegisters`, once initialised, with both messages, of two bytes or more: every
-- byte of the message to write is sent in order, each behind the end of the one before, between two latch pulses. The
-- bytes that arrive fill the other message, but for the last, which is not read.
pub transfer_lem :
    (s : SpiShiftRegistersConfig) (marker : ℕ) (miso : ℕ → ℕ) (write read : List ℕ) (n : ℕ)
    → suc (suc n) < 2 ^ 32
    → suc (suc n) ≤ length write
    → suc n ≤ length read
    → transfer marker miso (some write) (some read) (suc (suc n)) s
      ≡ ok (record s {
        write_message = some write;
        read_message = some (arriving miso s.looks (suc n) ++ drop (suc n) read);
        message_size = suc (suc n);
        read_index = suc n;
        write_index = suc (suc n);
        looks = s.looks + suc n;
        log =
            s.log
            ++ (latch marker s.hw.pin_cs
                ++ (Action.write_data (get_or write 0 0) ∷ rounds_log write 0 (suc n)
                    ++ (Action.await_txc ∷ latch marker s.hw.pin_cs)));
      })
unfolding transfer send_next
transfer_lem s marker miso write read n small enough fits =
    ap
      (λ r. (r >>= λ v. ok (under_way s write read size 0 s.looks (start v))) >>= λ s1.
        ending (exchange (suc size) miso s1))
      (load_lem write 0 0 (omega arith))
    ∙ ap ending (
        exchanged s miso write size small enough n (suc size) 0 s.looks read
          (start (get_or write 0 0)) (omega arith) (omega arith) (omega arith))
    ∙ ap (λ j. ended (fill read 0 bytes) j logged) {x = 0 + suc n} {y = suc n} (omega arith)
    ∙ ap (λ m. ended m (suc n) logged)
        (fill_all read bytes (omega (arith, length-arriving miso s.looks (suc n)))
          ∙ ap (λ j. bytes ++ drop j read) (length-arriving miso s.looks (suc n)))
    ∙ ap (λ l. ended (bytes ++ drop (suc n) read) (suc n) l) (log-append s.log)
  where
    size : ℕ
    size = suc (suc n)

    bytes : List ℕ
    bytes = arriving miso s.looks (suc n)

    pulses : List Action
    pulses = latch marker s.hw.pin_cs

    start : ℕ → List Action
    start v = (s.log ++ pulses) ++ (Action.write_data v ∷ [])

    ending : Result SpiShiftRegistersConfig → Result SpiShiftRegistersConfig
    ending r = r >>= λ s2. ok (emits (Action.await_txc ∷ pulses) s2)

    ended : List ℕ → ℕ → List Action → Result SpiShiftRegistersConfig
    ended m i l = ok (under_way s write m size i (s.looks + suc n) l)

    logged : List Action
    logged = (start (get_or write 0 0) ++ rounds_log write 0 (suc n)) ++ (Action.await_txc ∷ pulses)

    log-append :
        (xs : List Action)
        → (((xs ++ pulses) ++ (Action.write_data (get_or write 0 0) ∷ []))
              ++ rounds_log write 0 (suc n))
            ++ (Action.await_txc ∷ pulses)
          ≡ xs
            ++ (pulses
                ++ (Action.write_data (get_or write 0 0) ∷ rounds_log write 0 (suc n)
                    ++ (Action.await_txc ∷ pulses)))
    log-append [] = refl
    log-append (x ∷ xs) = ap (◌∷◌ x) (log-append xs)
