-- ===== src/Utilities/Hex.antt =====
-- `hexCharToUint`, `hexConverter` and the `hexParse` functions of utilities.c.
-- A `const char *` is the list of the characters from there to the end of the memory that may be
-- read: an access behind it is the fault `out_of_range`. `configASSERT(0)` is the fault
-- `assert_failed`. A parser returns the value and the pointer that it has moved on.
mod Parse
mod Tests
use samlibs.Base.{
  ℕ, ◌+◌, ◌-◌, ◌*◌, ◌%◌, ◌^◌, bit_or, List, leb, if◌then◌else◌, ◌&&◌, Result, ok, fault, ◌>>=◌,
  load, assert_failed, drop,
}

-- The casts to `uint8_t`, `uint16_t` and `uint32_t`.
abbrev pub u8 : ℕ → ℕ
u8 n = n % 2 ^ 8

abbrev pub u16 : ℕ → ℕ
u16 n = n % 2 ^ 16

abbrev pub u32 : ℕ → ℕ
u32 n = n % 2 ^ 32

pub hex_char_to_uint : ℕ → Result ℕ
hex_char_to_uint c =
    if leb b'0' c && leb c b'9'
    then ok (u8 (c - b'0'))
    else if leb b'A' c && leb c b'F'
    then ok (u8 (c - (b'A' - 0x0A)))
    else if leb b'a' c && leb c b'f'
    then ok (u8 (c - (b'a' - 0x0A)))
    else fault assert_failed

pub hex_converter : List ℕ → Result ℕ
hex_converter s = do
  c0 ← load s 0
  hi ← hex_char_to_uint c0
  c1 ← load s 1
  lo ← hex_char_to_uint c1
  ok (u8 (bit_or (hi * 2 ^ 4) lo))

pub hex_parse_uint8 : List ℕ → Result (ℕ × List ℕ)
hex_parse_uint8 c = do val ← hex_converter c; ok (val, drop 2 c)

pub hex_parse_uint16 : List ℕ → Result (ℕ × List ℕ)
hex_parse_uint16 c = do
  hi ← hex_converter c
  let val = u16 (hi * 2 ^ 8)
  let c' = drop 2 c
  lo ← hex_converter c'
  ok (u16 (bit_or val lo), drop 2 c')

-- The first half is shifted as an `int`; the store into a `uint32_t` keeps its 32 bits.
pub hex_parse_uint32 : List ℕ → Result (ℕ × List ℕ)
hex_parse_uint32 c = do
  hi ← hex_parse_uint16 c
  let val = u32 (hi.0 * 2 ^ 16)
  lo ← hex_parse_uint16 hi.1
  ok (u32 (bit_or val lo.0), lo.1)
