-- ===== src/At24mac.antt =====
-- comm/devices/at24mac.c: the EEPROM with a MAC address, behind the polling I2C master.
mod Tests
use samlibs.Base.{
  ℕ, suc, ◌+◌, ◌%◌, ◌^◌, ◌≤◌, ◌≡◌, ap, ◌∙◌, List, [], ◌∷◌, ◌++◌, length, drop, Bool, true, false,
  ◌==◌, Result, ok, ◌>>=◌, arith,
}
use samlibs.I2c.Polled.{
  Wire, Bus, I2cConfig, master_init, write_addr_le, read_bytes, read_bytes_le, write_bytes_le,
}
use samlibs.I2c.Polled.Bytes.{IsAnswering, bus, incoming, read_bytes_lem}
use samlibs.I2c.Polled.Write.{transfer_log, write_addr_le_lem}

abbrev pub eeprom_address : ℕ
eeprom_address = 0xA0

abbrev pub uuid_address : ℕ
uuid_address = 0xB1

-- `clock` and `in_mode` are those of `master_init`.
module _ (clock : ℕ) (in_mode : Bool) (w : Wire) (c : I2cConfig) where
  -- The result, the six bytes, and the bus.
  pub get_mac_address48 : List ℕ → Bus → Result (Bool × List ℕ × Bus)
  get_mac_address48 mac b = do
    addressed ← write_addr_le w eeprom_address 0x9A (master_init clock in_mode c b)
    got ← read_bytes_le w uuid_address mac 6 addressed.1
    ok (got.0 == 6, got.1, got.2)

  pub save_to_eeprom : ℕ → List ℕ → ℕ → Bus → Result (Bool × Bus)
  save_to_eeprom addr buf bufsize b =
      write_bytes_le w eeprom_address addr buf bufsize (master_init clock in_mode c b)

  pub load_from_eeprom : ℕ → List ℕ → ℕ → Bus → Result (ℕ × List ℕ × Bus)
  load_from_eeprom addr buf bufsize b = do
    addressed ← write_addr_le w eeprom_address addr (master_init clock in_mode c b)
    read_bytes_le w eeprom_address buf bufsize addressed.1

  -- The bytes that the wire has next.
  abbrev pub received : ℕ → Bus → List ℕ
  received n b = incoming w (master_init clock in_mode c b).reads n

  -- The bus behind the address `addr`.
  abbrev addressed_bus : ℕ → Bus → Bus
  addressed_bus addr b =
      let b0 : Bus = master_init clock in_mode c b in
      bus (suc (suc (suc b0.waits))) b0.reads (b0.log ++ transfer_log eeprom_address (addr ∷ []) [])

  -- `at24mac_getMacAddress48` over a wire that answers: the buffer receives the six bytes of the address,
  -- and the result is pdFALSE all the same.
  pub get_mac_address48_lem :
      (mac : List ℕ) (b : Bus)
      → IsAnswering w
      → 6 ≤ length mac
      → (b' : Bus) × (get_mac_address48 mac b ≡ ok (false, received 6 b ++ drop 6 mac, b'))
  unfolding get_mac_address48
  get_mac_address48_lem mac b answers fits =
      let rest = read_bytes_lem w false uuid_address 5 mac behind answers fits in
      (
        _,
        ap (λ r. r >>= λ addressed. got (read_bytes w false uuid_address mac 6 addressed.1))
              (write_addr_le_lem w eeprom_address 0x9A (master_init clock in_mode c b) answers)
            ∙ ap got rest.1,
      )
    where
      behind : Bus
      behind = addressed_bus 0x9A b

      got : Result (ℕ × List ℕ × Bus) → Result (Bool × List ℕ × Bus)
      got r = r >>= λ read. ok (read.0 == 6, read.1, read.2)

  -- `at24mac_loadFromEEPROM` over a wire that answers: the buffer receives the bytes that are asked for,
  -- and the result is one less than their number, modulo 256.
  pub load_from_eeprom_lem :
      (addr n : ℕ) (buf : List ℕ) (b : Bus)
      → IsAnswering w
      → suc n ≤ length buf
      → (b' : Bus) × (load_from_eeprom addr buf (suc n) b
          ≡ ok (n % 2 ^ 8, received (suc n) b ++ drop (suc n) buf, b'))
  unfolding load_from_eeprom
  load_from_eeprom_lem addr n buf b answers fits =
      let rest = read_bytes_lem w false eeprom_address n buf (addressed_bus addr b) answers fits in
      (
        _,
        ap (λ r. r >>= λ addressed. read_bytes w false eeprom_address buf (suc n) addressed.1)
              (write_addr_le_lem w eeprom_address addr (master_init clock in_mode c b) answers)
            ∙ rest.1,
      )
