-- ===== src/Ethernet/Link.antt =====
-- FreeRTOS/TCP/portable/NetworkInterface/common/IEEE802Definitions.h: what a side of a link can do.
use samlibs.Base.{ℕ, ◌+◌, ◌-◌, ◌*◌, ◌/◌, ◌%◌, ◌^◌, Bool, ◌&&◌}

-- `IEEELinkCapabilities_t`: the bits that the drivers read, and the others.
pub record Capabilities : Type 0 where
  pub half_10 : Bool
  pub full_10 : Bool
  pub half_100_tx : Bool
  pub half_100_t4 : Bool
  pub full_100_tx : Bool
  pub further : ℕ

pub data Mode : Type 0 where
  full_100 half_100 full_10 half_10 : Mode

abbrev pub supports : Capabilities → Mode → Bool
supports c Mode.full_100 = c.full_100_tx
supports c Mode.half_100 = c.half_100_tx
supports c Mode.full_10 = c.full_10
supports c Mode.half_10 = c.half_10

abbrev pub both_support : Capabilities → Capabilities → Mode → Bool
both_support a b m = supports a m && supports b m

-- Bit `k` of a word, and the word with that bit replaced.
abbrev pub bit : ℕ → ℕ → ℕ
bit k w = w / 2 ^ k % 2

abbrev pub with_bit : ℕ → ℕ → ℕ → ℕ
with_bit k v w = w - (w / 2 ^ k % 2) * 2 ^ k + v * 2 ^ k
