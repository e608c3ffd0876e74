-- ===== src/I2c/Polled/Bytes.antt =====
-- Bytes that are read and written over a wire that answers.
use samlibs.Base.{
  ℕ, zero, suc, ◌+◌, ◌-◌, ◌%◌, ◌^◌, ◌≤◌, ◌<◌, ◌≡◌, refl, ap, ◌∙◌, List, [], ◌∷◌, ◌++◌, append_assoc,
  length, length-set, set, drop, Bool, true, false, not, Result, ok, ◌>>=◌, store, store_lem,
  lt→ltb, le→ltb, if◌then◌else◌, arith,
}
use samlibs.I2c.Interrupt.{read_address}
use samlibs.I2c.Order.{place, place_all, ordered, placed_all}
use samlibs.I2c.Polled.{
  Answer, Wire, Action, Bus, emits, awaited, await, awaited_timed, open_bus, index_of, read_loop,
  read_bytes,
}

-- Every wait ends, and the slave acknowledges.
abbrev pub IsAnswering : Wire → Type 0
IsAnswering w = (k : ℕ) → w.answer_at k ≡ Answer.ready false

-- The `n` bytes that DATA holds from the `r`th read on.
abbrev pub incoming : Wire → ℕ → ℕ → List ℕ
incoming w r zero = []
incoming w r (suc n) = w.data_at r ∷ incoming w (suc r) n

length-incoming : (w : Wire) (r n : ℕ) → length (incoming w r n) ≡ n
length-incoming w r zero = refl
length-incoming w r (suc n) = ap suc (length-incoming w (suc r) n)

-- The writes and reads of `n` bytes that are received.
abbrev pub read_actions : ℕ → List Action
read_actions zero = []
read_actions (suc zero) = Action.ackact 1 ∷ Action.command 0x03 ∷ Action.read_data ∷ []
read_actions (suc (suc n)) =
    Action.ackact 0 ∷ Action.read_data ∷ Action.command 0x02 ∷ read_actions (suc n)

abbrev pub bus : ℕ → ℕ → List Action → Bus
bus k r l = record { waits = k; reads = r; rxnack = false; log = l }

index_of-eq-place : (be : Bool) (num i : ℕ) → index_of be num i ≡ place be num i
index_of-eq-place true num i = omega arith
index_of-eq-place false num i = refl

store_placed :
    (be : Bool) (num i v : ℕ) (buf : List ℕ)
    → i < num
    → num ≤ length buf
    → store buf (index_of be num i) v ≡ ok (set buf (place be num i) v)
store_placed be num i v buf h fits =
    ap (λ j. store buf j v) (index_of-eq-place be num i)
    ∙ store_lem buf (place be num i) v (inside be)
  where
    inside : (be : Bool) → place be num i < length buf
    inside true = omega arith
    inside false = omega arith

module _ (w : Wire) (answers : IsAnswering w) (be : Bool) (num : ℕ) where
  read_last :
      (i k r : ℕ) (buf : List ℕ) (l : List Action)
      → i + 1 ≡ num
      → num ≤ length buf
      → read_loop w be num 1 i buf (bus k r l)
        ≡ ok (
          (num - 1) % 2 ^ 8,
          set buf (place be num i) (w.data_at r),
          bus k
              (suc r)
              ((l ++ (Action.ackact 1 ∷ Action.command 0x03 ∷ [])) ++ (Action.read_data ∷ [])),
        )
  unfolding read_loop
  read_last i k r buf l h fits = rw (le→ltb (i + 1) num (omega arith)) (
      ap
        (λ q. q >>= λ buf'. ok (
          i % 2 ^ 8,
          buf',
          bus k (suc r)
              ((l ++ (Action.ackact 1 ∷ Action.command 0x03 ∷ [])) ++ (Action.read_data ∷ [])),
        ))
        (store_placed be num i (w.data_at r) buf (omega arith) fits)
      ∙ ap
          (λ j. ok (
            j % 2 ^ 8,
            set buf (place be num i) (w.data_at r),
            bus k (suc r)
                ((l ++ (Action.ackact 1 ∷ Action.command 0x03 ∷ [])) ++ (Action.read_data ∷ [])),
          ))
          {x = i} {y = num - 1} (omega arith))

  read_more :
      (i n k r : ℕ) (buf : List ℕ) (l : List Action)
      → i + 1 < num
      → num ≤ length buf
      → read_loop w be num (suc n) i buf (bus k r l)
        ≡ read_loop w be num n (i + 1) (set buf (place be num i) (w.data_at r)) (
            bus (suc k) (suc r) (
              ((l ++ (Action.ackact 0 ∷ [])) ++ (Action.read_data ∷ []))
              ++ (Action.command 0x02 ∷ [])))
  unfolding read_loop
  read_more i n k r buf l h fits = rw (lt→ltb (i + 1) num h) (
      ap (λ q. q >>= λ buf'. going (w.answer_at k) buf')
        (store_placed be num i (w.data_at r) buf (omega arith) fits)
      ∙ ap (λ a. going a (set buf (place be num i) (w.data_at r))) (answers k))
    where
      behind : List Action
      behind =
          ((l ++ (Action.ackact 0 ∷ [])) ++ (Action.read_data ∷ [])) ++ (Action.command 0x02 ∷ [])

      going : Answer → List ℕ → Result (ℕ × List ℕ × Bus)
      going a buf' =
          if not (awaited_timed a (bus k (suc r) behind)).0
          then ok (0, buf', (awaited_timed a (bus k (suc r) behind)).1)
          else read_loop w be num n (i + 1) buf' (awaited_timed a (bus k (suc r) behind)).1

  read_all :
      (n i k r : ℕ) (buf : List ℕ) (l : List Action)
      → i + suc n ≡ num
      → num ≤ length buf
      → (k' : ℕ) × (read_loop w be num (suc n) i buf (bus k r l)
          ≡ ok (
            (num - 1) % 2 ^ 8,
            place_all be num buf i (incoming w r (suc n)),
            bus k' (r + suc n) (l ++ read_actions (suc n)),
          ))
  read_all zero i k r buf l h fits = (
    k,
    read_last i k r buf l (omega arith) fits
        ∙ ap
            (λ l'. ok ((num - 1) % 2 ^ 8, set buf (place be num i) (w.data_at r), bus k (suc r) l'))
            (append_assoc l (Action.ackact 1 ∷ Action.command 0x03 ∷ []) (Action.read_data ∷ []))
        ∙ ap
            (λ r'. ok (
              (num - 1) % 2 ^ 8,
              set buf (place be num i) (w.data_at r),
              bus k r' (l ++ read_actions 1),
            ))
            {x = suc r} {y = r + 1} (omega arith),
  )
  read_all (suc n) i k r buf l h fits =
      let rest =
        read_all n (suc i) (suc k) (suc r) buf1 l1 (omega arith)
          (omega (arith, length-set buf (place be num i) (w.data_at r), fits)) in
      (
        rest.0,
        read_more i (suc n) k r buf l (omega arith) fits
            ∙ ap (λ j. read_loop w be num (suc n) j buf1 (bus (suc k) (suc r) l1)) {x = i + 1}
                {y = suc i} (omega arith)
            ∙ rest.1
            ∙ ap
                (λ r'. ok (
                  (num - 1) % 2 ^ 8,
                  place_all be num buf1 (suc i) (incoming w (suc r) (suc n)),
                  bus rest.0 r' (l1 ++ read_actions (suc n)),
                ))
                {x = suc r + suc n} {y = r + suc (suc n)} (omega arith)
            ∙ ap
                (λ l'. ok (
                  (num - 1) % 2 ^ 8,
                  place_all be num buf1 (suc i) (incoming w (suc r) (suc n)),
                  bus rest.0 (r + suc (suc n)) l',
                ))
                (l1-append l),
      )
    where
      l1 : List Action
      l1 = ((l ++ (Action.ackact 0 ∷ [])) ++ (Action.read_data ∷ [])) ++ (Action.command 0x02 ∷ [])

      buf1 : List ℕ
      buf1 = set buf (place be num i) (w.data_at r)

      l1-append :
          (xs : List Action)
          → (((xs ++ (Action.ackact 0 ∷ [])) ++ (Action.read_data ∷ []))
                ++ (Action.command 0x02 ∷ []))
              ++ read_actions (suc n)
            ≡ xs ++ read_actions (suc (suc n))
      l1-append [] = refl
      l1-append (x ∷ xs) = ap (◌∷◌ x) (l1-append xs)

-- The start of a transfer, and the wait behind it.
pub opened :
    {A : Type 0} (w : Wire) (address : ℕ) (b : Bus) (f : Bus → Result A)
    → IsAnswering w
    → (open_bus w address b >>= λ b1. await w b1 >>= f)
      ≡ f (
          bus
            (suc (suc b.waits))
            b.reads
            ((b.log ++ (Action.ackact 0 ∷ [])) ++ (Action.write_address address ∷ [])))
unfolding open_bus
opened w address b f answers =
    ap
      (λ a.
        (awaited a (emits (Action.ackact 0 ∷ []) b) >>= λ b1.
        ok (emits (Action.write_address address ∷ []) b1))
        >>= λ b2. await w b2 >>= f)
      (answers b.waits)
    ∙ ap
        (λ a.
          awaited a (
            bus (suc b.waits) b.reads
              ((b.log ++ (Action.ackact 0 ∷ [])) ++ (Action.write_address address ∷ [])))
          >>= f)
        (answers (suc b.waits))

-- Both `i2c_master_readBytes` over a wire that answers: for one byte or more, for which the
-- buffer has room, they address the device for reading, acknowledge every byte but the last, answer that
-- with a stop, and leave the bytes at the front of the buffer, reversed in the big-endian one.
-- They return one less than the number of bytes, modulo 256.
pub read_bytes_lem :
    (w : Wire) (be : Bool) (device n : ℕ) (buf : List ℕ) (b : Bus)
    → IsAnswering w
    → suc n ≤ length buf
    → (k : ℕ) × (read_bytes w be device buf (suc n) b
        ≡ ok (
          n % 2 ^ 8,
          ordered be (incoming w b.reads (suc n)) ++ drop (suc n) buf,
          bus k (b.reads + suc n) (
              b.log
              ++ (Action.ackact 0
                  ∷ Action.write_address (read_address device)
                  ∷ read_actions (suc n))),
        ))
unfolding read_bytes
read_bytes_lem w be device n buf b answers fits =
    let rest =
      read_all w answers be (suc n) n 0 (suc (suc b.waits)) b.reads buf
        ((b.log ++ (Action.ackact 0 ∷ [])) ++ (Action.write_address (read_address device) ∷ []))
        (omega arith) fits in
    (
      rest.0,
      opened w (read_address device) b (λ b2. read_loop w be (suc n) (suc n) 0 buf b2) answers
          ∙ rest.1
          ∙ ap
              (λ m.
                ok (
                  m % 2 ^ 8,
                  place_all be (suc n) buf 0 bytes,
                  bus rest.0 (b.reads + suc n) behind,
                ))
              {x = suc n - 1} {y = n} (omega arith)
          ∙ ap (λ m. ok (n % 2 ^ 8, m, bus rest.0 (b.reads + suc n) behind))
              (placed_all be (suc n) buf bytes (length-incoming w b.reads (suc n)) fits)
          ∙ ap
              (λ l.
                ok
                  (n % 2 ^ 8, ordered be bytes ++ drop (suc n) buf, bus rest.0 (b.reads + suc n) l))
              (behind-append b.log),
    )
  where
    bytes : List ℕ
    bytes = incoming w b.reads (suc n)

    behind : List Action
    behind =
        ((b.log ++ (Action.ackact 0 ∷ [])) ++ (Action.write_address (read_address device) ∷ []))
        ++ read_actions (suc n)

    behind-append :
        (xs : List Action)
        → ((xs ++ (Action.ackact 0 ∷ [])) ++ (Action.write_address (read_address device) ∷ []))
            ++ read_actions (suc n)
          ≡ xs
            ++ (Action.ackact 0 ∷ Action.write_address (read_address device) ∷ read_actions (suc n))
    behind-append [] = refl
    behind-append (x ∷ xs) = ap (◌∷◌ x) (behind-append xs)
