-- ===== src/System/SerialNumber.antt =====
-- system/serialnumber.c: the four words of the serial number.
use samlibs.Base.{ℕ, ◌+◌}

pub record SerialNumber : Type 0 where
  pub word0 : ℕ
  pub word1 : ℕ
  pub word2 : ℕ
  pub word3 : ℕ

pub data Family : Type 0 where
  sam_x5x samd20 : Family

abbrev pub word0_addr : Family → ℕ
word0_addr sam_x5x = 0x008061FC
word0_addr samd20 = 0x0080A00C

abbrev pub word1_addr : Family → ℕ
word1_addr sam_x5x = 0x00806010
word1_addr samd20 = 0x0080A040

-- `memory` is the word at an address.
pub get_serial_number : Family → (ℕ → ℕ) → SerialNumber
get_serial_number f memory = record {
  word0 = memory (word0_addr f);
  word1 = memory (word1_addr f);
  word2 = memory (word1_addr f + 4);
  word3 = memory (word1_addr f + 8);
}
