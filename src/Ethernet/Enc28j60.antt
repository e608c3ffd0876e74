-- ===== src/Ethernet/Enc28j60.antt =====
-- FreeRTOS/TCP/portable/NetworkInterface/ENC28J60/enc28j60.c: the registers of an ENC28J60 on SPI.
--
-- The log holds the bytes that are sent under one chip select, a list for each. The SERCOM completes
-- every character. What DATA holds when it is read at the end of such a transfer is `reply`, of all
-- transfers up to then. The functions in enc28j60_int.c differ in how they reach the SERCOM.
pub mod Bank
pub mod Access
pub mod Buffer
pub mod Nic
pub mod Interrupt
mod Tests
use samlibs.Base.{
  ℕ, zero, suc, ◌+◌, ◌*◌, ◌/◌, ◌%◌, ◌^◌, Bool, true, false, not, ◌&&◌, List, [], ◌∷◌, ◌++◌,
  if◌then◌else◌, ◌==◌, Fault, Result, ok, fault, ◌>>=◌,
}

pub record Enc : Type 0 where
  pub last_bank : ℕ
  pub log : List (List ℕ)

abbrev pub Reply : Type 0
Reply = List (List ℕ) → ℕ

abbrev pub econ1 : ℕ
econ1 = 0xFF

abbrev pub micmd : ℕ
micmd = 0x92

abbrev pub miregadr : ℕ
miregadr = 0x94

abbrev pub miwrl : ℕ
miwrl = 0x96

abbrev pub mirdl : ℕ
mirdl = 0x98

abbrev pub mistat : ℕ
mistat = 0xCA

abbrev pub bfs_inst : ℕ
bfs_inst = 0x80

abbrev pub bfc_inst : ℕ
bfc_inst = 0xA0

abbrev pub transfer : List ℕ → Enc → Enc
transfer bytes s = record s { log = s.log ++ bytes ∷ [] }

-- `r & BANK_MASK` and `r & SFR_MASK`
abbrev pub bank_bits : ℕ → ℕ
bank_bits r = r % 256 / 32 * 32

abbrev pub index_bits : ℕ → ℕ
index_bits r = r % 32

pub bank_select : ℕ → Enc → Enc
bank_select r s =
    if not (bank_bits r == 0xE0) && not (bank_bits r == s.last_bank)
    then record s {
      last_bank = bank_bits r;
      log = s.log ++ (0xBF ∷ 3 ∷ []) ∷ (0x9F ∷ bank_bits r / 64 ∷ []) ∷ [];
    }
    else s

-- The value of a read, which is a byte, and the state behind it.
abbrev pub answered : Reply → Enc → ℕ × Enc
answered reply s = (reply s.log % 256, s)

pub read_ctrl8 : Reply → ℕ → Enc → ℕ × Enc
read_ctrl8 reply a s = answered reply (transfer (index_bits a ∷ 0xFF ∷ []) (bank_select a s))

pub read_ctrl8_macmii : Reply → ℕ → Enc → ℕ × Enc
read_ctrl8_macmii reply a s =
    answered reply (transfer (index_bits a ∷ 0xFF ∷ 0xFF ∷ []) (bank_select a s))

-- The first byte is sent with the whole of `a`, the second with its index bits.
abbrev pub read_twice : Reply → List ℕ → ℕ → Enc → ℕ × Enc
read_twice reply dummies a s =
    let low : ℕ × Enc = answered reply (transfer ((a % 256) ∷ dummies) (bank_select a s)) in
    let high : ℕ × Enc = answered reply (transfer ((index_bits a + 1) ∷ dummies) low.1) in
    (high.0 * 256 + low.0, high.1)

pub read_ctrl16 : Reply → ℕ → Enc → ℕ × Enc
read_ctrl16 reply a s = read_twice reply (0xFF ∷ []) a s

pub read_ctrl16_macmii : Reply → ℕ → Enc → ℕ × Enc
read_ctrl16_macmii reply a s = read_twice reply (0xFF ∷ 0xFF ∷ []) a s

pub write8 : ℕ → Enc → Enc
write8 v s = transfer (v ∷ []) s

pub write_ctrl8 : ℕ → ℕ → Enc → Enc
write_ctrl8 a v s = transfer ((0x40 + index_bits a) ∷ (v % 256) ∷ []) (bank_select a s)

pub write_ctrl16 : ℕ → ℕ → Enc → Enc
unfolding write_ctrl8
write_ctrl16 a v s = write_ctrl8 (a + 1) (v / 256) (write_ctrl8 a v s)

-- `op` is one of the instructions with five free bits.
pub write_op : ℕ → ℕ → ℕ → Enc → Enc
write_op op a d s = transfer ((op + index_bits a) ∷ (d % 256) ∷ []) (bank_select a s)

-- Reading MISTAT until its bit 0 is clear, `fuel` times at most.
pub wait_for_phy : Reply → ℕ → Enc → Result Enc
wait_for_phy reply zero s = fault Fault.hangs
wait_for_phy reply (suc fuel) s =
    let status : ℕ × Enc = read_ctrl8_macmii reply mistat s in
    let later : Result Enc = wait_for_phy reply fuel status.1 in
    if status.0 % 2 == 1 then later else ok status.1

pub write_phy : Reply → ℕ → ℕ → ℕ → Enc → Result Enc
write_phy reply fuel a d s =
    wait_for_phy reply fuel (write_ctrl16 miwrl d (write_ctrl8 miregadr a s))

pub read_phy : Reply → ℕ → ℕ → Enc → Result (ℕ × Enc)
read_phy reply fuel a s = do
  s1 ← wait_for_phy reply fuel (write_op bfs_inst micmd 1 (write_ctrl8 miregadr a s))
  ok (read_ctrl16_macmii reply mirdl (write_op bfc_inst micmd 1 s1))
