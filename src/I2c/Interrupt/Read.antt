-- ===== src/I2c/Interrupt/Read.antt =====
-- A register that is read, from the queue to the notification of the task.
use samlibs.Base.{
  ℕ, zero, suc, ◌+◌, ◌-◌, ◌%◌, ◌^◌, ◌≤◌, ◌<◌, ◌≡◌, refl, sym, ap, ◌∙◌, List, [], ◌∷◌, ◌++◌,
  append_assoc, length, length-set, set, drop, Bool, true, false, Option, some, Result, ok, ◌>>=◌,
  store, store_lem, ltb, lt→ltb, le→ltb, if◌then◌else◌, arith,
}
use samlibs.I2c.Interrupt.{
  Action, I2CTransactionType, I2CState, I2CmCmd, I2CmError, I2CTransaction, I2CInterruptConfig,
  read_address, opening, mb_switch, mb_routine, sb_routine, answer, store_byte, store_back, begin,
  finish, serve,
}
use samlibs.I2c.Order.{place, place_all, ordered, placed_all}
use samlibs.I2c.Interrupt.Write.{mb_run}

-- The interrupts of the slave on the bus, with the bytes that it sends.
pub sb_run : List ℕ → I2CInterruptConfig → Result I2CInterruptConfig
sb_run [] s = ok s
sb_run (b ∷ bs) s = sb_routine b s >>= λ s'. sb_run bs s'

-- The answers to `n` bytes, of which the last ends the transfer.
abbrev pub answers : ℕ → List Action
answers zero = []
answers (suc zero) =
    Action.clear_sb
    ∷ Action.ackact 1
    ∷ Action.command I2CmCmd.ack_stop
    ∷ Action.notify_bits I2CmError.no_error
    ∷ []
answers (suc (suc n)) =
    Action.clear_sb ∷ Action.ackact 0 ∷ Action.command I2CmCmd.ack_read ∷ answers (suc n)

abbrev pub received :
    I2CTransaction → List ℕ → ℕ → List Action → I2CInterruptConfig → I2CInterruptConfig
received t memory counter l s = record s {
  current = some (record t { data_bytes = some memory; data_counter = counter });
  state = I2CState.read_data;
  log = l;
}

module _ (t : I2CTransaction) (small : t.data_length < 2 ^ 8) (s : I2CInterruptConfig) where
  stored_byte :
      (m : List ℕ) (i b : ℕ)
      → i < t.data_length
      → t.data_length ≤ length m
      → store_byte b (record t { data_bytes = some m; data_counter = i })
        ≡ ok (record t {
          data_bytes = some (set m (place t.big_endian t.data_length i) b);
          data_counter = suc i;
        })
  unfolding store_byte
  stored_byte m i b h fits =
      ap
        (λ k. (if t.big_endian then store_back m t.data_length k b else store m i b) >>= λ m'.
          ok (record t { data_bytes = some m'; data_counter = k }))
        {x = (i + 1) % 2 ^ 8} {y = suc i} (omega arith)
      ∙ ap (λ r. r >>= λ m'. ok (record t { data_bytes = some m'; data_counter = suc i }))
          (in_place t.big_endian)
    where
      in_place :
          (be : Bool)
          → (if be then store_back m t.data_length (suc i) b else store m i b)
            ≡ ok (set m (place be t.data_length i) b)
      in_place true =
          rw (le→ltb t.data_length (suc i) (omega arith))
            (store_lem m (t.data_length - suc i) b (omega arith))
      in_place false = store_lem m i b (omega arith)

  received_byte :
      (m : List ℕ) (i b : ℕ) (l : List Action) (more : Bool)
      → i < t.data_length
      → ltb (suc i) t.data_length ≡ more
      → t.data_length ≤ length m
      → sb_routine b (received t m i l s)
        ≡ ok (
            received t
              (set m (place t.big_endian t.data_length i) b)
              (suc i)
              (l ++ (Action.clear_sb ∷ answer more))
              s)
  unfolding sb_routine
  received_byte m i b l more h hm fits =
      ap
        (λ r. r >>= λ t'. ok (record s {
          current = some t';
          state = I2CState.read_data;
          log = l ++ (Action.clear_sb ∷ answer (ltb t'.data_counter t'.data_length));
        }))
        (stored_byte m i b h fits)
      ∙ ap
          (λ x. ok (
            received t (set m (place t.big_endian t.data_length i) b) (suc i)
              (l ++ (Action.clear_sb ∷ answer x)) s))
          hm

  received_bytes :
      (bs m : List ℕ) (b i : ℕ) (l : List Action)
      → i + suc (length bs) ≡ t.data_length
      → t.data_length ≤ length m
      → sb_run (b ∷ bs) (received t m i l s)
        ≡ ok (
            received t
              (place_all t.big_endian t.data_length m i (b ∷ bs))
              t.data_length
              (l ++ answers (suc (length bs)))
              s)
  unfolding sb_run
  received_bytes [] m b i l h fits =
      ap (λ r. r >>= λ s'. ok s')
        (received_byte m i b l false (omega arith) (le→ltb (suc i) t.data_length (omega arith))
          fits)
      ∙ ap
          (λ n. ok (received t (set m (place t.big_endian t.data_length i) b) n (l ++ answers 1) s))
          {x = suc i} {y = t.data_length} (omega arith)
  received_bytes (b' ∷ bs) m b i l h fits =
      ap (λ r. r >>= λ s'. sb_run (b' ∷ bs) s')
        (received_byte m i b l true (omega arith) (lt→ltb (suc i) t.data_length (omega arith)) fits)
      ∙ received_bytes bs m' b' (suc i) (l ++ one) (omega arith)
          (omega (arith, length-set m (place t.big_endian t.data_length i) b, fits))
      ∙ ap
          (λ l'. ok (
            received t (place_all t.big_endian t.data_length m' (suc i) (b' ∷ bs)) t.data_length l'
              s))
          (append_assoc l one (answers (suc (length bs))))
    where
      m' : List ℕ
      m' = set m (place t.big_endian t.data_length i) b

      one : List Action
      one = Action.clear_sb ∷ answer true

-- The interrupts of a register that is read, and the notification that the task finds: two of
-- the master, and one of the slave for each of its bytes `bs`.
abbrev pub exchange : List ℕ → I2CInterruptConfig → Result (Option I2CmError × I2CInterruptConfig)
exchange bs s = mb_run 2 s >>= λ s1. sb_run bs s1 >>= λ s2. ok (some I2CmError.no_error, s2)

-- What such a transaction adds to the log.
abbrev pub read_log : I2CTransaction → List Action
read_log t =
    Action.ackact 0 ∷ Action.bus_idle ∷ opening I2CTransactionType.writeread t.device_address
    ++ (Action.clear_mb
          ∷ Action.write_data t.register_address
          ∷ Action.clear_mb
          ∷ Action.write_address (read_address t.device_address)
          ∷ answers t.data_length
        ++ (Action.notify_requester ∷ []))

abbrev read_start : I2CTransaction → List Action → List Action
read_start t l =
    ((((l
            ++ (Action.ackact 0
                ∷ Action.bus_idle
                ∷ opening I2CTransactionType.writeread t.device_address))
          ++ (Action.clear_mb ∷ []))
        ++ (Action.write_data t.register_address ∷ []))
      ++ (Action.clear_mb ∷ []))
    ++ (Action.write_address (read_address t.device_address) ∷ [])

started :
    (t : I2CTransaction) (m : List ℕ) (s : I2CInterruptConfig)
    → t.transaction_type ≡ I2CTransactionType.writeread
    → t.data_bytes ≡ some m
    → mb_run 2 (begin t s) ≡ ok (received (record t { success = false }) m 0 (read_start t s.log) s)
unfolding mb_run begin mb_routine mb_switch
started t m s kind known =
    ap (λ k. mb_run 2 (begin (record t { transaction_type = k }) s)) kind
    ∙ ap (λ k. ok (behind k t.data_bytes)) (sym kind)
    ∙ ap (λ d. ok (behind t.transaction_type d)) known
  where
    behind : I2CTransactionType → Option (List ℕ) → I2CInterruptConfig
    behind k d = record s {
      current =
          some
            (record t { transaction_type = k; data_bytes = d; data_counter = 0; success = false });
      state = I2CState.read_data;
      log = read_start t s.log;
    }

exchanged :
    (t : I2CTransaction) (m : List ℕ) (b : ℕ) (bs : List ℕ) (s : I2CInterruptConfig)
    → t.transaction_type ≡ I2CTransactionType.writeread
    → t.data_bytes ≡ some m
    → t.data_length ≡ length (b ∷ bs)
    → t.data_length ≤ length m
    → t.data_length < 2 ^ 8
    → exchange (b ∷ bs) (begin t s)
      ≡ ok (
        some I2CmError.no_error,
        received
            (record t { success = false })
            (ordered t.big_endian (b ∷ bs) ++ drop t.data_length m)
            t.data_length
            (read_start t s.log ++ answers t.data_length)
            s,
      )
exchanged t m b bs s kind known size fits small =
    ap (λ r. r >>= λ s1. notified (sb_run (b ∷ bs) s1)) (started t m s kind known)
    ∙ ap notified
        (received_bytes t' small s bs m b 0 (read_start t s.log) (omega (arith, size)) fits)
    ∙ ap
        (λ n. notified (
          ok (
            received t' (place_all t.big_endian t.data_length m 0 (b ∷ bs)) t.data_length
              (read_start t s.log ++ answers n) s)))
        (sym size)
    ∙ ap
        (λ m'.
          notified
            (ok (received t' m' t.data_length (read_start t s.log ++ answers t.data_length) s)))
        (placed_all t.big_endian t.data_length m (b ∷ bs) (sym size) fits)
  where
    t' : I2CTransaction
    t' = record t { success = false }

    notified : Result I2CInterruptConfig → Result (Option I2CmError × I2CInterruptConfig)
    notified r = r >>= λ s2. ok (some I2CmError.no_error, s2)

-- The transaction as its task finds it.
abbrev pub answered : I2CTransaction → List ℕ → List ℕ → I2CTransaction
answered t m bs = record t {
  success = true;
  data_bytes = some (ordered t.big_endian bs ++ drop t.data_length m);
  data_counter = t.data_length;
}

-- A register is read: where the queue holds a transaction of the type I2C_WRITEREAD, of at least
-- one and less than 256 bytes, for which its memory has room, the task addresses the device for
-- writing, writes the register, addresses the device for reading, acknowledges every byte but the last,
-- answers that with a stop, and hands back the bytes, reversed where the transaction is big-endian, in the
-- front of the memory, and success.
pub read_register :
    (t : I2CTransaction) (m : List ℕ) (b : ℕ) (bs : List ℕ) (s : I2CInterruptConfig)
    → t.transaction_type ≡ I2CTransactionType.writeread
    → t.data_bytes ≡ some m
    → t.data_length ≡ length (b ∷ bs)
    → t.data_length ≤ length m
    → t.data_length < 2 ^ 8
    → serve (exchange (b ∷ bs)) (t ∷ []) s
      ≡ ok (
        some (answered t m (b ∷ bs)) ∷ [],
        record s {
          current = some (answered t m (b ∷ bs));
          state = I2CState.read_data;
          log = s.log ++ read_log t;
        },
      )
unfolding serve finish
read_register t m b bs s kind known size fits small =
    ap served (exchanged t m b bs s kind known size fits small)
    ∙ ap (λ l. ok (some (answered t m (b ∷ bs)) ∷ [], behind l)) (read_start-append s.log)
  where
    served :
        Result (Option I2CmError × I2CInterruptConfig)
        → Result (List (Option I2CTransaction) × I2CInterruptConfig)
    served r = r >>= λ waited. finish waited.0 waited.1 >>= λ s1. ok (s1.current ∷ [], s1)

    behind : List Action → I2CInterruptConfig
    behind l = record s {
      current = some (answered t m (b ∷ bs));
      state = I2CState.read_data;
      log = l;
    }

    read_start-append :
        (l : List Action)
        → (read_start t l ++ answers t.data_length) ++ (Action.notify_requester ∷ [])
          ≡ l ++ read_log t
    read_start-append [] = refl
    read_start-append (a ∷ l) = ap (◌∷◌ a) (read_start-append l)
