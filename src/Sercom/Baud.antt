-- ===== src/Sercom/Baud.antt =====
-- The divisors in the baud rate registers.
use samlibs.Base.{ℕ, ◌+◌, ◌-◌, ◌*◌, ◌/◌, ◌%◌, ◌^◌, ◌≤◌, ◌<◌, ◌≡◌, arith}
use native.Mathlib.Nat.{div-mul-le_self, div-lt_iff_lt-mul, le-div_iff_mul-le, mod-eq_of_lt}
use samlibs.Sercom.{baudrate_to_register_synchronous, baudrate_to_register_fractional}

-- `q` is the quotient of `a` by `b`.
abbrev pub IsQuotient : ℕ → ℕ → ℕ → Type 0
IsQuotient a b q = (q * b ≤ a) × (a < (q + 1) * b)

div-IsQuotient : (a b : ℕ) → 0 < b → IsQuotient a b (a / b)
div-IsQuotient a b h = (div-mul-le_self a b, (div-lt_iff_lt-mul h).0 (omega arith))

-- The divisor in eighths that the fields BAUD and FP of a register hold.
abbrev pub eighths : ℕ → ℕ
eighths reg = 8 * (reg % 2 ^ 13) + (reg / 2 ^ 13) % 2 ^ 3

abbrev packed : ℕ → ℕ
packed q = (q / 8) % 2 ^ 13 + (q % 8) * 2 ^ 13

eighths-packed : (q : ℕ) → q < 2 ^ 16 → (eighths (packed q) ≡ q) × (packed q < 2 ^ 16)
eighths-packed q h = (omega arith, omega arith)

-- `ulSercomBaudrateToRegisterFractional` is exact: where its products fit 32 bits and the
-- divisor fits the field BAUD, the fields of the register hold, in eighths, the quotient of the
-- clock by 16 times the baud rate, and the register has 16 bits.
pub baudrate_to_register_fractional_lem :
    (clock baudrate : ℕ)
    → 0 < baudrate
    → clock * 8 < 2 ^ 32
    → 16 * baudrate < 2 ^ 32
    → clock * 8 < 2 ^ 16 * (16 * baudrate)
    → IsQuotient
        (clock * 8)
        (16 * baudrate)
        (eighths (baudrate_to_register_fractional clock baudrate))
      × (baudrate_to_register_fractional clock baudrate < 2 ^ 16)
unfolding baudrate_to_register_fractional
baudrate_to_register_fractional_lem clock baudrate h hc hb hq =
    let small = (div-lt_iff_lt-mul {k = 16 * baudrate} {x = clock * 8} (omega arith)).1 hq in
    let fields = eighths-packed (clock * 8 / (16 * baudrate)) small in
    rw (mod-eq_of_lt {m = 2 ^ 32} hc, mod-eq_of_lt {m = 2 ^ 32} hb, fields.0)
      (div-IsQuotient (clock * 8) (16 * baudrate) (omega arith), fields.1)

-- `uSercomBaudrateToRegisterSynchronous` is exact: where the clock is at least twice and less
-- than 512 times the baud rate, the register's value and 1 are the quotient of the clock by twice
-- the baud rate.
pub baudrate_to_register_synchronous_lem :
    (clock baudrate : ℕ)
    → 2 * baudrate < 2 ^ 32
    → 2 * baudrate ≤ clock
    → clock < 2 ^ 8 * (2 * baudrate)
    → IsQuotient clock (2 * baudrate) (baudrate_to_register_synchronous clock baudrate + 1)
unfolding baudrate_to_register_synchronous
baudrate_to_register_synchronous_lem clock baudrate hb hc hq =
    let positive : 0 < 2 * baudrate = omega (arith, hc, hq) in
    let large =
      (le-div_iff_mul-le {k = 2 * baudrate} {x = 1} {y = clock} positive).1 (omega arith) in
    let small = (div-lt_iff_lt-mul {k = 2 * baudrate} {x = clock} positive).1 hq in
    let exact : (clock / (2 * baudrate) + 2 ^ 32 - 1) % 2 ^ 8 + 1 ≡ clock / (2 * baudrate) =
      omega (arith, large, small) in
    rw (mod-eq_of_lt {m = 2 ^ 32} hb, exact) (div-IsQuotient clock (2 * baudrate) positive)
