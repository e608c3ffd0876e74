-- ===== src/GpioShiftRegisters/Exchange.antt =====
-- A message that is exchanged with the shift registers.
use samlibs.Base.{
  ℕ, zero, suc, ◌+◌, ◌*◌, ◌%◌, ◌^◌, ◌≤◌, ◌<◌, ◌≡◌, refl, sym, ap, ◌∙◌, List, [], ◌∷◌, ◌++◌,
  append_assoc, append-nil, length, length-set, get_or, set, drop, fill_down, fill_down_all,
  reverse, Bool, true, false, Option, some, not, if◌then◌else◌, not, if◌then◌else◌, bit_or, Result,
  ok, ◌>>=◌, load_lem, store, store_lem, arith,
}
use native.Mathlib.Nat.{pow-le-pow_right, two-pow-succ}
use samlibs.Base.Bits.{bit_or_disjoint}
use samlibs.GpioShiftRegisters.{
  GpioShiftRegistersConfig, Action, Lines, level, has_bit, clock, shift_bits, shift_bytes, pulse,
  push,
}

-- The number that `n` bits write behind `v`, the most significant first.
abbrev pub number : (ℕ → Bool) → ℕ → ℕ → ℕ → ℕ
number miso k zero v = v
number miso k (suc n) v = number miso (suc k) n (v * 2 + level (miso k))

abbrev pub clocked : GpioShiftRegistersConfig → ℕ → ℕ → List Action
clocked c tx zero = []
clocked c tx (suc b) = clock c (has_bit tx b) ++ clocked c tx b

abbrev lines_at : ℕ → List Action → Lines
lines_at k l = record { looks = k; log = l }

level_small : (b : Bool) → level b < 2 ^ 1
level_small true = omega arith
level_small false = omega arith

next_bit : (rx : ℕ) (b : Bool) → rx < 2 ^ 7 → bit_or ((rx * 2) % 2 ^ 8) (level b) ≡ rx * 2 + level b
next_bit rx b h =
    ap (λ v. bit_or v (level b)) {x = (rx * 2) % 2 ^ 8} {y = rx * 2 ^ 1} (omega arith)
    ∙ bit_or_disjoint 1 rx (level b) (level_small b)

shifted_bits :
    (c : GpioShiftRegistersConfig) (miso : ℕ → Bool) (tx n m rx k : ℕ) (l : List Action)
    → m + n ≡ 8
    → rx < 2 ^ m
    → shift_bits c miso tx n rx (lines_at k l)
      ≡ (number miso k n rx, lines_at (k + n) (l ++ clocked c tx n))
unfolding shift_bits
shifted_bits c miso tx zero m rx k l hn h =
    ap (λ j. (rx, lines_at j l)) {x = k} {y = k + 0} (omega arith)
    ∙ ap (λ l'. (rx, lines_at (k + 0) l')) (sym (append-nil l))
shifted_bits c miso tx (suc n) m rx k l hn h =
    ap (λ v. shift_bits c miso tx n v (lines_at (suc k) l1))
      (next_bit rx (miso k)
        (omega (arith, h, pow-le-pow_right {n = 2} (omega arith) {i = m} {j = 7} (omega arith))))
    ∙ shifted_bits c miso tx n (suc m) (rx * 2 + level (miso k)) (suc k) l1 (omega arith)
        (omega (arith, h, two-pow-succ m, level_small (miso k)))
    ∙ ap (λ j. (number miso k (suc n) rx, lines_at j (l1 ++ clocked c tx n))) {x = suc k + n}
        {y = k + suc n} (omega arith)
    ∙ ap (λ l'. (number miso k (suc n) rx, lines_at (k + suc n) l'))
        (append_assoc l (clock c (has_bit tx n)) (clocked c tx n))
  where
    l1 : List Action
    l1 = l ++ clock c (has_bit tx n)

-- The `n` bytes that arrive, the first of them first.
abbrev pub arrived : (ℕ → Bool) → ℕ → ℕ → List ℕ
arrived miso k zero = []
arrived miso k (suc n) = number miso k 8 0 ∷ arrived miso (k + 8) n

length-arrived : (miso : ℕ → Bool) (k n : ℕ) → length (arrived miso k n) ≡ n
length-arrived miso k zero = refl
length-arrived miso k (suc n) = ap suc (length-arrived miso (k + 8) n)

-- The clocked bits of the first `n` bytes of `write`, the last byte first.
abbrev pub bytes_clocked : GpioShiftRegistersConfig → List ℕ → ℕ → List Action
bytes_clocked c write zero = []
bytes_clocked c write (suc n) = clocked c (get_or write n 0) 8 ++ bytes_clocked c write n

shifted_bytes :
    (c : GpioShiftRegistersConfig) (miso : ℕ → Bool) (write read : List ℕ) (n k : ℕ)
    (l : List Action)
    → n ≤ length write
    → n ≤ length read
    → shift_bytes c miso (some write) n (some read) (lines_at k l)
      ≡ ok (
        some (fill_down read n (arrived miso k n)),
        lines_at (k + 8 * n) (l ++ bytes_clocked c write n),
      )
unfolding shift_bytes
shifted_bytes c miso write read zero k l hw hr =
    ap (λ j. ok (some read, lines_at j l)) {x = k} {y = k + 8 * 0} (omega arith)
    ∙ ap (λ l'. ok (some read, lines_at (k + 8 * 0) l')) (sym (append-nil l))
shifted_bytes c miso write read (suc n) k l hw hr =
    ap (λ r. r >>= λ tx. going (shift_bits c miso tx 8 0 (lines_at k l)))
      (load_lem write n 0 (omega arith))
    ∙ ap going (shifted_bits c miso (get_or write n 0) 8 0 0 k l refl (omega arith))
    ∙ ap (λ r. stored r >>= λ m. shift_bytes c miso (some write) n m (lines_at (k + 8) l1))
        (store_lem read n (number miso k 8 0) (omega arith))
    ∙ shifted_bytes c miso write (set read n (number miso k 8 0)) n (k + 8) l1 (omega arith)
        (omega (arith, length-set read n (number miso k 8 0)))
    ∙ ap (λ j. ok (some message, lines_at j (l1 ++ bytes_clocked c write n))) {x = k + 8 + 8 * n}
        {y = k + 8 * suc n} (omega arith)
    ∙ ap (λ l'. ok (some message, lines_at (k + 8 * suc n) l'))
        (append_assoc l (clocked c (get_or write n 0) 8) (bytes_clocked c write n))
  where
    l1 : List Action
    l1 = l ++ clocked c (get_or write n 0) 8

    message : List ℕ
    message = fill_down read (suc n) (arrived miso k (suc n))

    stored : Result (List ℕ) → Result (Option (List ℕ))
    stored r = r >>= λ m. ok (some m)

    going : ℕ × Lines → Result (Option (List ℕ) × Lines)
    going shifted = stored (store read n shifted.0) >>= λ read'.
        shift_bytes c miso (some write) n read' shifted.1

filled :
    (miso : ℕ → Bool) (read : List ℕ) (size k : ℕ)
    → size ≤ length read
    → fill_down read size (arrived miso k size) ≡ reverse (arrived miso k size) ++ drop size read
filled miso read size k h =
    ap (λ n. fill_down read n bytes) (sym (length-arrived miso k size))
    ∙ fill_down_all read bytes (omega (arith, length-arrived miso k size))
    ∙ ap (λ n. reverse bytes ++ drop n read) (length-arrived miso k size)
  where
    bytes : List ℕ
    bytes = arrived miso k size

pub push_lem :
    (c : GpioShiftRegistersConfig) (miso : ℕ → Bool) (write read : List ℕ) (size k : ℕ)
    (l : List Action)
    → c.is_init ≡ true
    → size ≤ length write
    → size ≤ length read
    → push (some c) miso (some write) (some read) size (record { looks = k; log = l })
      ≡ ok (
        true,
        some (reverse (arrived miso k size) ++ drop size read),
        record {
          looks = k + 8 * size;
          log =
              l
              ++ (Action.clear_pin c.gpio_cs ∷ Action.set_pin c.gpio_cs ∷ bytes_clocked c write size
                  ++ (Action.set_pin c.gpio_cs ∷ Action.clear_pin c.gpio_cs ∷ []));
        },
      )
unfolding push
push_lem c miso write read size k l ready hw hr =
    ap
      (λ b.
        if not b
        then ok (false, some read, lines_at k l)
        else closed (shift_bytes c miso (some write) size (some read) (lines_at k (l ++ low))))
      ready
    ∙ ap closed (shifted_bytes c miso write read size k (l ++ low) hw hr)
    ∙ ap
        (λ m. ok (
          true,
          some m,
          lines_at (k + 8 * size) (((l ++ low) ++ bytes_clocked c write size) ++ high),
        ))
        (filled miso read size k hr)
    ∙ ap
        (λ l'. ok (
          true,
          some (reverse (arrived miso k size) ++ drop size read),
          lines_at (k + 8 * size) l',
        ))
        (log-append l)
  where
    low : List Action
    low = Action.clear_pin c.gpio_cs ∷ Action.set_pin c.gpio_cs ∷ []

    high : List Action
    high = Action.set_pin c.gpio_cs ∷ Action.clear_pin c.gpio_cs ∷ []

    closed : Result (Option (List ℕ) × Lines) → Result (Bool × Option (List ℕ) × Lines)
    closed r = r >>= λ shifted. ok (true, shifted.0, pulse true high shifted.1)

    log-append :
        (xs : List Action)
        → ((xs ++ low) ++ bytes_clocked c write size) ++ high
          ≡ xs ++ (low ++ (bytes_clocked c write size ++ high))
    log-append [] = refl
    log-append (x ∷ xs) = ap (◌∷◌ x) (log-append xs)
