-- ===== src/Dmx/Rdm.antt =====
-- The checksums of rdm.c, over the view `rdm` of a buffer.
pub mod Checksum
use samlibs.Base.{ℕ, zero, suc, ◌+◌, ◌*◌, ◌%◌, ◌^◌, bit_or, List, Result, ok, ◌>>=◌, load}
use samlibs.Dmx.Port.{DmxBuffer, message_length_index, message_index}

-- `buffer->rdm.messageLength` and `buffer->rdm.message[i]`.
abbrev pub message_length : DmxBuffer → Result ℕ
message_length b = load b.dmx message_length_index

abbrev pub message : DmxBuffer → ℕ → Result ℕ
message b i = load b.dmx (message_index + i)

pub get_checksum : DmxBuffer → Result ℕ
get_checksum b = do
  len ← message_length b
  hi ← message b len
  lo ← message b (len + 1)
  ok (bit_or (hi * 2 ^ 8) lo % 2 ^ 16)

-- The loop at index `i`, with `n` rounds left. `i` is below `messageLength`, a byte, when it is
-- incremented, so that it does not wrap.
pub sum_loop : ℕ → ℕ → List ℕ → ℕ → Result ℕ
sum_loop zero i dmx checksum = ok checksum
sum_loop (suc n) i dmx checksum = do
  byte ← load dmx i
  sum_loop n (i + 1) dmx ((checksum + byte) % 2 ^ 16)

pub compute_checksum : DmxBuffer → Result ℕ
compute_checksum b = do len ← message_length b; sum_loop len 0 b.dmx 0
