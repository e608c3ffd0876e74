-- ===== src/Ethernet/Enc28j60/Nic/Initialise.antt =====
-- NetworkInterface.c: the configuration of the ENC28J60.
use samlibs.Base.{ℕ, Bool, true, false, ◌||◌, List, [], ◌∷◌, if◌then◌else◌, ◌==◌, Result, ok, ◌>>=◌}
use samlibs.Ethernet.Enc28j60.{
  Enc, bfs_inst, read_ctrl8, read_ctrl8_macmii, write8, write_ctrl8, write_ctrl16, write_op,
  write_phy,
}
use samlibs.Ethernet.Enc28j60.Nic.{World, Nic, econ2, rx_fifo_init, tx_fifo_init, set_mac}

-- The six bytes of MAADR1 to MAADR6.
pub get_mac : World → Enc → List ℕ × Enc
get_mac w s =
    let b1 : ℕ × Enc = read_ctrl8_macmii w.reply 0xC4 s in
    let b2 : ℕ × Enc = read_ctrl8_macmii w.reply 0xC5 b1.1 in
    let b3 : ℕ × Enc = read_ctrl8_macmii w.reply 0xC2 b2.1 in
    let b4 : ℕ × Enc = read_ctrl8_macmii w.reply 0xC3 b3.1 in
    let b5 : ℕ × Enc = read_ctrl8_macmii w.reply 0xC0 b4.1 in
    let b6 : ℕ × Enc = read_ctrl8_macmii w.reply 0xC1 b5.1 in
    (b1.0 ∷ b2.0 ∷ b3.0 ∷ b4.0 ∷ b5.0 ∷ b6.0 ∷ [], b6.1)

-- The receive filter and the pattern match.
pub init_filter : Enc → Enc
init_filter s = write_ctrl16 0x50 0xF7F9 (write_ctrl16 0x48 0x303F (write_ctrl8 0x58 0xA9 s))

-- MACON1 to MACON4, the largest frame of 1536 bytes and the gaps, for full duplex.
pub init_mac : Enc → Enc
init_mac s =
    let s1 : Enc = write_ctrl8 0x82 0x33 (write_ctrl8 0x81 0 (write_ctrl8 0x80 0x0D s)) in
    let s2 : Enc = write_ctrl16 0x8A 1536 (write_ctrl8 0x83 0x40 s1) in
    write_ctrl16 0x86 0x12 (write_ctrl8 0x84 0x15 s2)

-- PHCON1, PHCON2 and PHIE, for full duplex.
pub init_phy : World → ℕ → Enc → Result Enc
init_phy w fuel s = do
  s1 ← write_phy w.reply fuel 0x00 0x0100 s
  s2 ← write_phy w.reply fuel 0x10 0 s1
  write_phy w.reply fuel 0x12 0x12 s2

-- Behind the check of the revision. The semaphore is given before EIE is written.
pub configure : World → ℕ → List ℕ → Nic → Result (Bool × Nic)
configure w fuel mac n = do
  let s1 = tx_fifo_init (rx_fifo_init (write_op bfs_inst econ2 0x88 n.enc))
  s2 ← init_phy w fuel (init_mac (init_filter s1))
  s3 ← set_mac mac s2
  ok (true, record n { enc = write_ctrl8 0xFB 0xD0 s3; spi_free = true; next_packet = 0 })

pub network_interface_initialise : World → ℕ → List ℕ → Nic → Result (Bool × Nic)
network_interface_initialise w fuel mac n =
    let revision : ℕ × Enc = read_ctrl8 w.reply 0xD2 (write8 0xFF n.enc) in
    let n1 : Nic = record n { enc = revision.1 } in
    if revision.0 == 0 || revision.0 == 0xFF then ok (false, n1) else configure w fuel mac n1
