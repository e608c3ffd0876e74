-- ===== src/Dmx/Buffers.antt =====
-- `pDmxPortGetNextBuffer` and `vDmxCopyFrame` of dmx.c.
pub mod Choice
pub mod Copy
use samlibs.Base.{
  ℕ, zero, suc, ◌+◌, List, [], ◌∷◌, ◌++◌, Bool, true, false, not, ◌&&◌, Option, none, some,
  if◌then◌else◌, set, get_elem?, leb, length, take, drop, Result, ok, fault, out_of_range, ◌>>=◌,
}
use samlibs.Dmx.Port.{DmxBuffer, dmx_buffering, buffer_at, put_buffer}

-- The tests of the two loops.
abbrev pub is_free : DmxBuffer → Bool
is_free b = not b.written && (not b.read && not b.valid)

abbrev pub is_idle : DmxBuffer → Bool
is_idle b = not b.written && not b.read

-- The loop at index `i`, with `n` rounds left and the array from `i` on.
pub search : (DmxBuffer → Bool) → ℕ → ℕ → List DmxBuffer → Option ℕ
search test zero i bs = none
search test (suc n) i [] = none
search test (suc n) i (b ∷ bs) = if test b then some i else search test n (i + 1) bs

abbrev pub claimed : DmxBuffer → DmxBuffer
claimed b = record b { written = true; slot_count = 0 }

abbrev pub claim : List DmxBuffer → ℕ → List DmxBuffer
claim bs i = elim (get_elem? bs i) [ none ↦ bs | some b ↦ set bs i (claimed b) ]

-- The first loop's find, else the second's, whose criteria are lower.
pub choose : Option ℕ → Option ℕ → List DmxBuffer → Option ℕ × List DmxBuffer
choose (some i) second bs = (some i, claim bs i)
choose none (some i) bs = (some i, claim bs i)
choose none none bs = (none, bs)

pub get_next_buffer : List DmxBuffer → Option ℕ × List DmxBuffer
unfolding choose
get_next_buffer bs =
    choose (search is_free dmx_buffering 0 bs) (search is_idle dmx_buffering 0 bs) bs

-- `memcpy(dest, source, n)` between two arrays, in bounds of both.
abbrev pub memcpy : List ℕ → List ℕ → ℕ → Result (List ℕ)
memcpy dest source n =
    if leb n (length source) && leb n (length dest)
    then ok (take n source ++ drop n dest)
    else fault out_of_range

pub copy_frame : List DmxBuffer → Option ℕ → Option ℕ → Result (List DmxBuffer)
copy_frame bs none source = ok bs
copy_frame bs (some d) none = ok bs
copy_frame bs (some d) (some s) = do
  b ← buffer_at bs (some d)
  bs1 ← put_buffer bs (some d) (record b { written = true })
  src ← buffer_at bs1 (some s)
  dst ← buffer_at bs1 (some d)
  dmx ← memcpy dst.dmx src.dmx src.slot_count
  bs2 ← put_buffer bs1 (some d) (record dst { dmx = dmx })
  src2 ← buffer_at bs2 (some s)
  dst2 ← buffer_at bs2 (some d)
  put_buffer bs2 (some d)
      (record dst2 { slot_count = src2.slot_count; valid = true; written = false })
