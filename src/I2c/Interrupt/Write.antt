-- ===== src/I2c/Interrupt/Write.antt =====
-- A write transaction, from the queue to its notification.
use samlibs.Base.{
  ℕ, zero, suc, ◌+◌, ◌%◌, ◌^◌, ◌≤◌, ◌<◌, ◌≡◌, refl, sym, ap, ◌∙◌, List, [], ◌∷◌, ◌++◌, append_assoc,
  length, length-append, false, some, Result, ok, ◌>>=◌, deref, load, load-append, lt→ltb, le→ltb,
  if◌then◌else◌, arith,
}
use samlibs.I2c.Interrupt.{
  Action, I2CTransactionType, I2CState, I2CmError, I2CTransaction, I2CInterruptConfig, Status,
  mb_switch, mb_routine, write_next, begin, opening,
}

abbrev pub clean : Status
clean = record { buserr = false; arblost = false; rxnack = false }

-- `n` interrupts of the master on the bus, none of them with an error.
unfoldable pub mb_run : ℕ → I2CInterruptConfig → Result I2CInterruptConfig
mb_run zero s = ok s
mb_run (suc n) s = mb_routine clean s >>= λ s'. mb_run n s'

-- The log of the bytes that the interrupts write.
abbrev pub byte_writes : List ℕ → List Action
byte_writes [] = []
byte_writes (b ∷ bs) = Action.clear_mb ∷ Action.write_data b ∷ byte_writes bs

abbrev pub transfer :
    I2CTransaction → I2CState → ℕ → List Action → I2CInterruptConfig → I2CInterruptConfig
transfer t state counter l s = record s {
  current = some (record t { data_counter = counter });
  state = state;
  log = l;
}

module _ (t : I2CTransaction) (m : List ℕ) (known : t.data_bytes ≡ some m)
    (s : I2CInterruptConfig) where
  written_byte :
      (before bs : List ℕ) (b : ℕ) (l : List Action)
      → m ≡ before ++ (b ∷ bs)
      → length before < t.data_length
      → t.data_length < 2 ^ 8
      → mb_routine clean (transfer t I2CState.write_data (length before) l s)
        ≡ ok (
            transfer t I2CState.write_data
              (suc (length before))
              ((l ++ (Action.clear_mb ∷ [])) ++ (Action.write_data b ∷ []))
              s)
  unfolding mb_routine mb_switch write_next
  written_byte before bs b l e h small =
      ap (λ b. if b then sending (deref t.data_bytes) else idle)
        (lt→ltb (length before) t.data_length h)
      ∙ ap (λ o. sending (deref o)) known
      ∙ ap (λ r. r >>= λ byte. ok (next byte (suc_mod)))
          (ap (λ xs. load xs (length before)) e ∙ load-append before b bs)
      ∙ ap (λ i. ok (next b i)) (omega arith)
    where
      suc_mod : ℕ
      suc_mod = (length before + 1) % 2 ^ 8

      next : ℕ → ℕ → I2CInterruptConfig
      next byte i =
          transfer t I2CState.write_data i
            ((l ++ (Action.clear_mb ∷ [])) ++ (Action.write_data byte ∷ [])) s

      sending : Result (List ℕ) → Result I2CInterruptConfig
      sending r = r >>= λ memory. load memory (length before) >>= λ byte. ok (next byte suc_mod)

      idle : Result I2CInterruptConfig
      idle = ok (
          transfer t I2CState.write_data (length before)
            ((l ++ (Action.clear_mb ∷ [])) ++ (Action.notify_overwrite I2CmError.no_error ∷ [])) s)

  last_interrupt :
      (i : ℕ) (l : List Action)
      → t.data_length ≤ i
      → mb_routine clean (transfer t I2CState.write_data i l s)
        ≡ ok (
            transfer t I2CState.write_data i
              (l ++ (Action.clear_mb ∷ Action.notify_overwrite I2CmError.no_error ∷ []))
              s)
  unfolding mb_routine mb_switch write_next
  last_interrupt i l h = rw (le→ltb i t.data_length h) (
      ap (λ l'. ok (transfer t I2CState.write_data i l' s))
        (append_assoc l (Action.clear_mb ∷ []) (Action.notify_overwrite I2CmError.no_error ∷ [])))

  -- The rest of the bytes, and the interrupt behind the last.
  written_bytes :
      (before bs : List ℕ) (l : List Action)
      → m ≡ before ++ bs
      → t.data_length ≡ length before + length bs
      → t.data_length < 2 ^ 8
      → mb_run (suc (length bs)) (transfer t I2CState.write_data (length before) l s)
        ≡ ok (
            transfer t I2CState.write_data t.data_length
              (l
                ++ (byte_writes bs
                    ++ (Action.clear_mb ∷ Action.notify_overwrite I2CmError.no_error ∷ [])))
              s)
  unfolding mb_run
  written_bytes before [] l e h small =
      ap (λ r. r >>= λ s'. ok s') (last_interrupt (length before) l (omega arith))
      ∙ ap
          (λ i. ok (
            transfer t I2CState.write_data i
              (l ++ (Action.clear_mb ∷ Action.notify_overwrite I2CmError.no_error ∷ [])) s))
          {x = length before} {y = t.data_length} (omega arith)
  written_bytes before (b ∷ bs) l e h small =
      ap (λ r. r >>= λ s'. mb_run (suc (length bs)) s')
        (written_byte before bs b l e (omega arith) small)
      ∙ ap (λ i. mb_run (suc (length bs)) (transfer t I2CState.write_data i one s))
          (omega (arith, length-append before (b ∷ [])))
      ∙ written_bytes (before ++ (b ∷ [])) bs one (e ∙ sym (append_assoc before (b ∷ []) bs))
          (omega (arith, length-append before (b ∷ []), h)) small
      ∙ ap (λ l'. ok (transfer t I2CState.write_data t.data_length l' s))
          (append_assoc (l ++ (Action.clear_mb ∷ [])) (Action.write_data b ∷ []) rest
            ∙ append_assoc l (Action.clear_mb ∷ []) (Action.write_data b ∷ rest))
    where
      one : List Action
      one = (l ++ (Action.clear_mb ∷ [])) ++ (Action.write_data b ∷ [])

      rest : List Action
      rest = byte_writes bs ++ (Action.clear_mb ∷ Action.notify_overwrite I2CmError.no_error ∷ [])

-- What a write of the bytes `bs` adds to the log, from the start of the transaction.
abbrev pub write_log : I2CTransaction → List ℕ → List Action
write_log t bs =
    Action.ackact 0 ∷ Action.bus_idle ∷ opening I2CTransactionType.write t.device_address
    ++ (Action.clear_mb ∷ Action.write_data t.register_address ∷ byte_writes bs
        ++ (Action.clear_mb ∷ Action.notify_overwrite I2CmError.no_error ∷ []))

abbrev start_log : I2CTransaction → List Action → List Action
start_log t l =
    ((l ++ (Action.ackact 0 ∷ Action.bus_idle ∷ opening I2CTransactionType.write t.device_address))
      ++ (Action.clear_mb ∷ []))
    ++ (Action.write_data t.register_address ∷ [])

-- The interrupt behind the address writes the register.
written_register :
    (t : I2CTransaction) (s : I2CInterruptConfig)
    → t.transaction_type ≡ I2CTransactionType.write
    → mb_routine clean (begin t s)
      ≡ ok (transfer (record t { success = false }) I2CState.write_data 0 (start_log t s.log) s)
unfolding begin mb_routine mb_switch
written_register t s kind =
    ap (λ k. mb_routine clean (begin (record t { transaction_type = k }) s)) kind
    ∙ ap
        (λ k. ok (
          transfer (record t { success = false; transaction_type = k }) I2CState.write_data 0
            (start_log t s.log) s))
        (sym kind)

-- A write transaction of less than 256 bytes puts its address for writing, its register and its
-- bytes in order on the bus, one at each interrupt, and then notifies the task of its success.
-- No stop condition is issued: the log has no command.
pub write_transaction :
    (t : I2CTransaction) (bs : List ℕ) (s : I2CInterruptConfig)
    → t.transaction_type ≡ I2CTransactionType.write
    → t.data_bytes ≡ some bs
    → t.data_length ≡ length bs
    → length bs < 2 ^ 8
    → mb_run (suc (suc (length bs))) (begin t s)
      ≡ ok (
          transfer
            (record t { success = false })
            I2CState.write_data
            (length bs)
            (s.log ++ write_log t bs)
            s)
unfolding mb_run
write_transaction t bs s kind known size small =
    ap (λ r. r >>= λ s'. mb_run (suc (length bs)) s') (written_register t s kind)
    ∙ written_bytes (record t { success = false }) bs known s [] bs (start_log t s.log) refl
        (size ∙ omega arith) (omega (arith, size))
    ∙ ap
        (λ i. ok (
          transfer (record t { success = false }) I2CState.write_data i (start_log t s.log ++ rest)
            s))
        size
    ∙ ap (λ l. ok (transfer (record t { success = false }) I2CState.write_data (length bs) l s))
        (start-append s.log)
  where
    rest : List Action
    rest = byte_writes bs ++ (Action.clear_mb ∷ Action.notify_overwrite I2CmError.no_error ∷ [])

    start-append : (l : List Action) → start_log t l ++ rest ≡ l ++ write_log t bs
    start-append [] = refl
    start-append (a ∷ l) = ap (◌∷◌ a) (start-append l)
