-- ===== src/Ethernet/Mac/Serial.antt =====
-- xSAMx5xMAC_I2CWriteToPHY and xSAMx5xMAC_I2CReadFromPHY of samx5xmac.c: the registers of a PHY over I2C.
use samlibs.Base.{
  ℕ, suc, ◌%◌, ◌/◌, ◌^◌, ◌≤◌, ◌≡◌, ◌∙◌, List, [], ◌∷◌, ◌++◌, length, drop, Bool, true, ltb, >>=-ok,
  Result, ok, ◌>>=◌,
}
use samlibs.I2c.Polled.{Wire, Bus, write_addr16_be, write_bytes16_be, read_bytes_be}
use samlibs.I2c.Polled.Bytes.{IsAnswering, bus, incoming, read_bytes_lem}
use samlibs.I2c.Order.{ordered}
use samlibs.I2c.Polled.Write.{transfer_log, write_addr16_be_lem}

-- The result of the transfer is not looked at.
pub i2c_write_to_phy : Wire → ℕ → ℕ → List ℕ → ℕ → Bus → Result (Bool × Bus)
i2c_write_to_phy w phyaddr reg bytes count b = do
  sent ← write_bytes16_be w phyaddr reg bytes count b
  ok (true, sent.1)

-- The result, the buffer, and the bus.
pub i2c_read_from_phy : Wire → ℕ → ℕ → List ℕ → ℕ → Bus → Result (Bool × List ℕ × Bus)
i2c_read_from_phy w phyaddr reg bytes count b = do
  addressed ← write_addr16_be w phyaddr reg b
  got ← read_bytes_be w phyaddr bytes count addressed.1
  ok (ltb 0 got.0, got.1, got.2)

-- Over a wire that answers a read of one byte or more fills the buffer with the bytes that arrive, the
-- last one first, and passes only where their number is not 1 modulo 256: the identification that the
-- task of the KSZ9893 reads as a single byte fails.
pub i2c_read_from_phy_lem :
    (w : Wire) (phyaddr reg n : ℕ) (bytes : List ℕ) (b : Bus)
    → IsAnswering w
    → suc n ≤ length bytes
    → (b' : Bus) × (i2c_read_from_phy w phyaddr reg bytes (suc n) b
        ≡ ok (
          ltb 0 (n % 2 ^ 8),
          ordered true (incoming w b.reads (suc n)) ++ drop (suc n) bytes,
          b',
        ))
unfolding i2c_read_from_phy
i2c_read_from_phy_lem w phyaddr reg n bytes b answers fits =
    let (k, addressed) = write_addr16_be_lem w phyaddr reg b answers in
    let (j, got) =
      read_bytes_lem w true phyaddr n bytes
        (bus k b.reads (b.log ++ transfer_log phyaddr (reg / 2 ^ 8 % 2 ^ 8 ∷ reg % 2 ^ 8 ∷ []) []))
        answers fits in
    (
      _,
      >>=-ok (λ a. read_bytes_be w phyaddr bytes (suc n) a.1 >>= λ g. ok (ltb 0 g.0, g.1, g.2))
            addressed
          ∙ >>=-ok (λ g. ok (ltb 0 g.0, g.1, g.2)) got,
    )
