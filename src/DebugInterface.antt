-- ===== src/DebugInterface.antt =====
-- comm/debug_interface.c: characters to a USART.
--
-- What goes into DATA is a log, the newest last. Strings are lists of characters that end at the first
-- 0, as C's do; the memory behind a string that has no 0 is outside of it. The wait for DRE ends when
-- the USART can take a character. `vsnprintf`, which formats, is a parameter: what it leaves in
-- `buf` ends with a 0 within DEBUG_BUFSIZE characters. DEBUG_UART is 1.
pub mod Lines
mod Tests
use samlibs.Base.{
  ℕ, ◌==◌, leb, Bool, true, false, if◌then◌else◌, List, [], ◌∷◌, ◌++◌, Result, ok, fault, Fault,
}

abbrev pub newline : ℕ
newline = 10

abbrev pub carriage_return : ℕ
carriage_return = 13

-- `debug_putchar`, which calls itself once.
pub debug_putchar : ℕ → List ℕ → List ℕ
debug_putchar c log =
    if c == newline then (log ++ carriage_return ∷ []) ++ c ∷ [] else log ++ c ∷ []

-- The loop over `str`.
pub debug_putstring : List ℕ → List ℕ → Result (List ℕ)
unfolding debug_putchar
debug_putstring [] log = fault Fault.out_of_range
debug_putstring (c ∷ str) log =
    let rest = debug_putstring str (debug_putchar c log) in if c == 0 then ok log else rest

-- `debug_verbose` with DEBUG_VERBOSE_LEVEL `level`; `buf` is what `vsnprintf` has left.
pub debug_verbose : ℕ → ℕ → List ℕ → List ℕ → Result (List ℕ)
unfolding debug_putstring
debug_verbose level verbose buf log = if leb verbose level then debug_putstring buf log else ok log

-- `debug_printf`, which is compiled for a level above 0.
pub debug_printf : ℕ → List ℕ → List ℕ → Result (List ℕ)
unfolding debug_putstring
debug_printf level buf log = if level == 0 then ok log else debug_putstring buf log
