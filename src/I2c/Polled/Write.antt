-- ===== src/I2c/Polled/Write.antt =====
-- Bytes that are written over a wire that answers.
use samlibs.Base.{
  ℕ, zero, suc, ◌+◌, ◌-◌, ◌/◌, ◌%◌, ◌^◌, ◌<◌, ◌≡◌, refl, sym, ap, ◌∙◌, List, [], ◌∷◌, ◌++◌,
  append_assoc, append-nil, length, get_or, reverse, Bool, true, false, Result, ok, ◌>>=◌, load_lem,
  if◌then◌else◌, arith,
}
use mathlib.Core.List.{reverse-cons}
use samlibs.I2c.Interrupt.{write_address_of}
use samlibs.I2c.Order.{ordered}
use samlibs.I2c.Polled.{
  Answer, Wire, Action, Bus, emits, awaited, awaited_timed, await_timed, send_address,
  write_addr_le, open_bus, send_all, open_with, index_of, write_loop, write_bytes_le,
  write_bytes16_le, write_bytes16_be, write_addr16_be,
}
use samlibs.I2c.Polled.Bytes.{IsAnswering, bus, opened}

abbrev pub write_actions : List ℕ → List Action
write_actions [] = []
write_actions (v ∷ vs) = Action.write_data v ∷ write_actions vs

-- The bytes that the loop takes, `n` of `num` from the index `i`.
abbrev picked : Bool → List ℕ → ℕ → ℕ → ℕ → List ℕ
picked be bytes num i zero = []
picked be bytes num i (suc n) = get_or bytes (index_of be num i) 0 ∷ picked be bytes num (suc i) n

picked_tail :
    (x : ℕ) (xs : List ℕ) (num i n : ℕ)
    → picked false (x ∷ xs) num (suc i) n ≡ picked false xs num i n
picked_tail x xs num i zero = refl
picked_tail x xs num i (suc n) = ap (◌∷◌ (get_or xs i 0)) (picked_tail x xs num (suc i) n)

picked_up : (xs : List ℕ) (num : ℕ) → picked false xs num 0 (length xs) ≡ xs
picked_up [] num = refl
picked_up (x ∷ xs) num = ap (◌∷◌ x) (picked_tail x xs num 0 (length xs) ∙ picked_up xs num)

-- The first `n` elements, the last of them first.
abbrev down : List ℕ → ℕ → List ℕ
down xs zero = []
down xs (suc n) = get_or xs n 0 ∷ down xs n

down_cons : (x : ℕ) (xs : List ℕ) (n : ℕ) → down (x ∷ xs) (suc n) ≡ down xs n ++ (x ∷ [])
down_cons x xs zero = refl
down_cons x xs (suc n) = ap (◌∷◌ (get_or xs n 0)) (down_cons x xs n)

down_all : (xs : List ℕ) → down xs (length xs) ≡ reverse xs
down_all [] = refl
down_all (x ∷ xs) =
    down_cons x xs (length xs) ∙ ap (λ ys. ys ++ (x ∷ [])) (down_all xs) ∙ sym (reverse-cons x xs)

picked-down : (xs : List ℕ) (num i n : ℕ) → i + n ≡ num → picked true xs num i n ≡ down xs n
picked-down xs num i zero h = refl
picked-down xs num i (suc n) h =
    ap (λ ys. get_or xs (num - i - 1) 0 ∷ ys) (picked-down xs num (suc i) n (omega arith))
    ∙ ap (λ j. get_or xs j 0 ∷ down xs n) {x = num - i - 1} {y = n} (omega arith)

picked_all : (be : Bool) (xs : List ℕ) → picked be xs (length xs) 0 (length xs) ≡ ordered be xs
picked_all true xs = picked-down xs (length xs) 0 (length xs) (omega arith) ∙ down_all xs
picked_all false xs = picked_up xs (length xs)

module _ (w : Wire) (answers : IsAnswering w) where
  sent_all :
      (vs : List ℕ) (k r : ℕ) (l : List Action)
      → send_all w vs (bus k r l) ≡ ok (bus (k + length vs) r (l ++ write_actions vs))
  unfolding send_all
  sent_all [] k r l =
      ap (λ j. ok (bus j r l)) {x = k} {y = k + 0} (omega arith)
      ∙ ap (λ l'. ok (bus (k + 0) r l')) (sym (append-nil l))
  sent_all (v ∷ vs) k r l =
      ap (λ a. awaited a (bus k r (l ++ (Action.write_data v ∷ []))) >>= λ b1. send_all w vs b1)
        (answers k)
      ∙ sent_all vs (suc k) r (l ++ (Action.write_data v ∷ []))
      ∙ ap (λ j. ok (bus j r ((l ++ (Action.write_data v ∷ [])) ++ write_actions vs)))
          {x = suc k + length vs} {y = k + suc (length vs)} (omega arith)
      ∙ ap (λ l'. ok (bus (k + suc (length vs)) r l'))
          (append_assoc l (Action.write_data v ∷ []) (write_actions vs))

  -- The loop with `n` bytes left.
  looped :
      (be : Bool) (bytes : List ℕ) (n i k r : ℕ) (l : List Action)
      → i + n ≡ length bytes
      → write_loop w be bytes (length bytes) n i (bus k r l)
        ≡ ok (
          true,
          bus (k + n) r (
              l
              ++ (write_actions (picked be bytes (length bytes) i n)
                  ++ (Action.command 0x03 ∷ []))),
        )
  unfolding write_loop
  looped be bytes zero i k r l h =
      ap (λ j. ok (true, bus j r (l ++ (Action.command 0x03 ∷ [])))) {x = k} {y = k + 0}
        (omega arith)
  looped be bytes (suc n) i k r l h =
      ap (λ q. q >>= λ v. sending (w.answer_at k) v) (load_lem bytes j 0 (inside be))
      ∙ ap (λ a. sending a (get_or bytes j 0)) (answers k)
      ∙ ap (λ i'. write_loop w be bytes (length bytes) n i' (bus (suc k) r l1)) {x = i + 1}
          {y = suc i} (omega arith)
      ∙ looped be bytes n (suc i) (suc k) r l1 (omega arith)
      ∙ ap (λ j'. ok (true, bus j' r (l1 ++ rest))) {x = suc k + n} {y = k + suc n} (omega arith)
      ∙ ap (λ l'. ok (true, bus (k + suc n) r l'))
          (append_assoc l (Action.write_data (get_or bytes j 0) ∷ []) rest)
    where
      j : ℕ
      j = index_of be (length bytes) i

      l1 : List Action
      l1 = l ++ (Action.write_data (get_or bytes j 0) ∷ [])

      rest : List Action
      rest = write_actions (picked be bytes (length bytes) (suc i) n) ++ (Action.command 0x03 ∷ [])

      inside : (be : Bool) → index_of be (length bytes) i < length bytes
      inside true = omega arith
      inside false = omega arith

      sending : Answer → ℕ → Result (Bool × Bus)
      sending a v = awaited a (bus k r (l ++ (Action.write_data v ∷ []))) >>= λ b1.
          if b1.rxnack then ok (false, b1) else write_loop w be bytes (length bytes) n (i + 1) b1

-- What the log of a write holds: the address, the bytes `vs` that stand for the register, and
-- the data.
abbrev pub transfer_log : ℕ → List ℕ → List ℕ → List Action
transfer_log device vs bytes =
    Action.ackact 0 ∷ Action.write_address (write_address_of device) ∷ write_actions vs
    ++ (write_actions bytes ++ (Action.command 0x03 ∷ []))

written :
    (w : Wire) (be : Bool) (device : ℕ) (vs bytes : List ℕ) (b : Bus)
    → IsAnswering w
    → (k : ℕ) × ((open_with w device vs b >>= λ b1.
          write_loop w be bytes (length bytes) (length bytes) 0 b1)
        ≡ ok (true, bus k b.reads (b.log ++ transfer_log device vs (ordered be bytes))))
unfolding open_with
written w be device vs bytes b answers = (
  k + length vs + length bytes,
  ap (λ q. q >>= λ b1. write_loop w be bytes (length bytes) (length bytes) 0 b1)
        (opened w (write_address_of device) b (λ b2. send_all w vs b2) answers
          ∙ sent_all w answers vs k b.reads l)
      ∙ looped w answers be bytes (length bytes) 0 (k + length vs) b.reads (l ++ write_actions vs)
          (omega arith)
      ∙ ap
          (λ ys. ok (
            true,
            bus (k + length vs + length bytes) b.reads
                ((l ++ write_actions vs) ++ (write_actions ys ++ (Action.command 0x03 ∷ []))),
          ))
          (picked_all be bytes)
      ∙ ap (λ l'. ok (true, bus (k + length vs + length bytes) b.reads l'))
          (append_assoc l (write_actions vs) rest ∙ start-append b.log),
)
  where
    k : ℕ
    k = suc (suc b.waits)

    l : List Action
    l = (b.log ++ (Action.ackact 0 ∷ [])) ++ (Action.write_address (write_address_of device) ∷ [])

    rest : List Action
    rest = write_actions (ordered be bytes) ++ (Action.command 0x03 ∷ [])

    start-append :
        (xs : List Action)
        → ((xs ++ (Action.ackact 0 ∷ [])) ++ (Action.write_address (write_address_of device) ∷ []))
            ++ (write_actions vs ++ rest)
          ≡ xs ++ transfer_log device vs (ordered be bytes)
    start-append [] = refl
    start-append (x ∷ xs) = ap (◌∷◌ x) (start-append xs)

-- The result of a write that succeeds.
abbrev pub Writes : Result (Bool × Bus) → Bus → List Action → Type 0
Writes result b added = (k : ℕ) × (result ≡ ok (true, bus k b.reads (b.log ++ added)))

-- The three `i2c_master_writeBytes` over a wire that answers and a slave that acknowledges write
-- the address, the register and every byte, and stop. The register is one byte, or two with the low one
-- first, or two with the high one first; the last of the three sends the bytes from the end of
-- the buffer.
pub write_bytes_lem :
    (w : Wire) (device addr : ℕ) (bytes : List ℕ) (b : Bus)
    → IsAnswering w
    → Writes
        (write_bytes_le w device addr bytes (length bytes) b)
        b
        (transfer_log device (addr ∷ []) bytes)
      × Writes
          (write_bytes16_le w device addr bytes (length bytes) b)
          b
          (transfer_log device (addr % 2 ^ 8 ∷ addr / 2 ^ 8 % 2 ^ 8 ∷ []) bytes)
      × Writes
          (write_bytes16_be w device addr bytes (length bytes) b)
          b
          (transfer_log device (addr / 2 ^ 8 % 2 ^ 8 ∷ addr % 2 ^ 8 ∷ []) (reverse bytes))
unfolding write_bytes_le write_bytes16_le write_bytes16_be
write_bytes_lem w device addr bytes b answers = (
  written w false device (addr ∷ []) bytes b answers,
  written w false device (addr % 2 ^ 8 ∷ addr / 2 ^ 8 % 2 ^ 8 ∷ []) bytes b answers,
  written w true device (addr / 2 ^ 8 % 2 ^ 8 ∷ addr % 2 ^ 8 ∷ []) bytes b answers,
)

-- `i2c_master_writeAddr_LE` over a wire that answers.
pub write_addr_le_lem :
    (w : Wire) (device addr : ℕ) (b : Bus)
    → IsAnswering w
    → write_addr_le w device addr b
      ≡ ok (
        true,
        bus (suc (suc (suc b.waits))) b.reads (b.log ++ transfer_log device (addr ∷ []) []),
      )
unfolding write_addr_le open_bus send_address
write_addr_le_lem w device addr b answers =
    ap
      (λ a.
        (awaited a (emits (Action.ackact 0 ∷ []) b) >>= λ b1.
        ok (emits (Action.write_address (write_address_of device) ∷ []) b1))
        >>= λ b1. ok (send_address w (addr ∷ []) (await_timed w b1)))
      (answers b.waits)
    ∙ ap
        (λ a.
          ok (send_address w (addr ∷ []) (awaited_timed a (bus (suc b.waits) b.reads (l b.log)))))
        (answers (suc b.waits))
    ∙ ap
        (λ a. ok (
          send_address w [] (
            awaited_timed a
              (bus (suc (suc b.waits)) b.reads (l b.log ++ (Action.write_data addr ∷ []))))))
        (answers (suc (suc b.waits)))
    ∙ ap (λ l'. ok (true, bus (suc (suc (suc b.waits))) b.reads l')) (l-append b.log)
  where
    l : List Action → List Action
    l xs = (xs ++ (Action.ackact 0 ∷ [])) ++ (Action.write_address (write_address_of device) ∷ [])

    l-append :
        (xs : List Action)
        → (l xs ++ (Action.write_data addr ∷ [])) ++ (Action.command 0x03 ∷ [])
          ≡ xs ++ transfer_log device (addr ∷ []) []
    l-append [] = refl
    l-append (x ∷ xs) = ap (◌∷◌ x) (l-append xs)

-- `i2c_master_writeAddr16_BE` over a wire that answers.
pub write_addr16_be_lem :
    (w : Wire) (device addr : ℕ) (b : Bus)
    → IsAnswering w
    → (k : ℕ) × (write_addr16_be w device addr b
        ≡ ok (
          true,
          bus k b.reads
              (b.log ++ transfer_log device (addr / 2 ^ 8 % 2 ^ 8 ∷ addr % 2 ^ 8 ∷ []) []),
        ))
unfolding write_addr16_be write_loop
write_addr16_be_lem w device addr b answers =
    written w false device (addr / 2 ^ 8 % 2 ^ 8 ∷ addr % 2 ^ 8 ∷ []) [] b answers
