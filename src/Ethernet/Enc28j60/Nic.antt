-- ===== src/Ethernet/Enc28j60/Nic.antt =====
-- FreeRTOS/TCP/portable/NetworkInterface/ENC28J60/NetworkInterface.c: the network interface.
--
-- The ENC28J60 and FreeRTOS+TCP are a `World`: what they answer is a function of the transfers so
-- far. `spi_free` is the binary semaphore; a task that does not get it within its second gives up.
pub mod Semaphore
pub mod Pointer
pub mod Initialise
use samlibs.Base.{
  ℕ, zero, suc, ◌+◌, ◌-◌, ◌*◌, ◌/◌, ◌%◌, ◌^◌, Bool, true, false, ◌||◌, List, [], ◌∷◌, ◌++◌, Option,
  none, some, if◌then◌else◌, ltb, ◌==◌, Fault, Result, ok, fault, ◌>>=◌, load, replicate,
}
use samlibs.Ethernet.Enc28j60.{
  Enc, Reply, bfs_inst, bfc_inst, econ1, read_ctrl8, read_ctrl8_macmii, read_ctrl16, write8,
  write_ctrl8, write_ctrl16, write_op, read_phy,
}
use samlibs.Ethernet.Enc28j60.Buffer.{read_buffer, write_buffer}

-- `buffer_for` is the network buffer that the pool has for a frame, `accepted` whether the frame is
-- to be processed and the IP task takes it.
pub record World : Type 0 where
  pub reply : Reply
  pub incoming : List (List ℕ) → ℕ → ℕ
  pub buffer_for : List (List ℕ) → ℕ → Option (List ℕ)
  pub accepted : List ℕ → Bool

pub data NicEvent : Type 0 where
  delivered released : List ℕ → NicEvent
  lost : NicEvent

pub record Nic : Type 0 where
  pub enc : Enc
  pub spi_free : Bool
  pub link_up : Bool
  pub next_packet : ℕ
  pub events : List NicEvent

abbrev pub rxstop_init : ℕ
rxstop_init = 0x19FF

abbrev pub txstart_init : ℕ
txstart_init = 0x1A00

abbrev pub txstop_init : ℕ
txstop_init = 0x1FFF

abbrev pub eir : ℕ
eir = 0xFC

abbrev pub econ2 : ℕ
econ2 = 0xFE

-- `next_packet_ptr - 1` is an `int`, which is below `start` when the pointer is zero.
pub erxrdpt_workaround : ℕ → ℕ → ℕ → ℕ
erxrdpt_workaround next start end =
    if ltb next (start + 1) || ltb end (next - 1) then end else next - 1

pub rx_fifo_init : Enc → Enc
unfolding erxrdpt_workaround
rx_fifo_init s = write_ctrl16 0x0E 0 (
    write_ctrl16 0x0A rxstop_init
      (write_ctrl16 0x0C (erxrdpt_workaround 0 0 rxstop_init) (write_ctrl16 0x08 0 s)))

pub tx_fifo_init : Enc → Enc
tx_fifo_init s =
    write_ctrl16 0x02 txstart_init
      (write_ctrl16 0x06 txstop_init (write_ctrl16 0x04 txstart_init s))

-- A frame behind its status vector, of `size` bytes.
pub receive_frame : World → ℕ → Nic → Result Nic
receive_frame w zero n = ok n
receive_frame w (suc k) n = elim (w.buffer_for n.enc.log (suc k)) [
  | none ↦ ok (record n { events = n.events ++ NicEvent.lost ∷ [] })
  | some buf ↦ read_buffer (w.incoming n.enc.log) buf (suc k) n.enc >>= λ (r : List ℕ × Enc).
      ok (record n {
        enc = r.1;
        events =
            n.events
            ++ (if w.accepted r.0 then NicEvent.delivered r.0 else NicEvent.released r.0) ∷ [];
      })
]

-- The body of the loop over the packets that wait.
pub receive_packet : World → Nic → Result Nic
receive_packet w n = do
  let e1 = write_ctrl16 0x00 n.next_packet n.enc
  r ← read_buffer (w.incoming e1.log) (replicate 6 0) 6 e1
  b0 ← load r.0 0
  b1 ← load r.0 1
  b2 ← load r.0 2
  b3 ← load r.0 3
  let next = b1 * 2 ^ 8 + b0
  n1 ← receive_frame w (b3 * 2 ^ 8 + b2) (record n { enc = r.1; next_packet = next })
  ok (record n1 { enc = write_op bfs_inst econ2 0x40 (write_ctrl16 0x0C next n1.enc) })

-- The loop on EPKTCNT, for `fuel` packets at most.
pub receive_packets : World → ℕ → Nic → Result Nic
receive_packets w zero n = fault Fault.hangs
receive_packets w (suc fuel) n =
    let waiting : ℕ × Enc = read_ctrl8 w.reply 0x59 n.enc in
    let n1 : Nic = record n { enc = waiting.1 } in
    let more : Result Nic = receive_packet w n1 >>= λ n2. receive_packets w fuel n2 in
    if waiting.0 == 0 then ok n1 else more

-- PHIR is read to clear the flag, then LSTAT of PHSTAT2.
pub read_link : World → ℕ → Nic → Result Nic
read_link w fuel n = do
  r1 ← read_phy w.reply fuel 0x13 n.enc
  r2 ← read_phy w.reply fuel 0x11 r1.1
  ok (record n { enc = r2.1; link_up = r2.0 / 2 ^ 10 % 2 == 1 })

-- A round of `nicIntTask`, with the semaphore taken.
pub nic_round_taken : World → ℕ → Nic → Result Nic
nic_round_taken w fuel n = do
  let flags = read_ctrl8 w.reply eir n.enc
  let n0 = record n { enc = flags.1 }
  n1 ← if flags.0 / 2 ^ 4 % 2 == 1 then read_link w fuel n0 else ok n0
  n2 ← receive_packets w fuel n1
  let n3 = if flags.0 % 2 == 1 then record n2 { enc = write_op bfc_inst eir 1 n2.enc } else n2
  ok (record n3 { spi_free = true })

pub nic_round : World → ℕ → Nic → Result Nic
nic_round w fuel n =
    if n.spi_free then nic_round_taken w fuel (record n { spi_free = false }) else ok n

-- The result, whether the network buffer is released, and the interface.
pub transmit : World → List ℕ → ℕ → Bool → Nic → Result (Bool × Bool × Nic)
transmit w frame length release n = do
  e1 ← write_buffer (0 ∷ []) 1 (tx_fifo_init n.enc)
  e2 ← write_buffer frame length e1
  let start = read_ctrl16 w.reply 0x04 e2
  let e3 = write_ctrl16 0x06 ((start.0 + length + 1) % 2 ^ 16) start.1
  let e4 = write_op bfs_inst econ1 8 (write_op bfc_inst eir 8 e3)
  ok (true, release, record n { enc = e4; spi_free = true })

-- The link is up and the semaphore taken.
pub output_on_link : World → List ℕ → ℕ → Bool → Nic → Result (Bool × Bool × Nic)
output_on_link w frame length release n =
    let control : ℕ × Enc = read_ctrl8 w.reply econ1 n.enc in
    let n1 : Nic = record n { enc = control.1 } in
    if control.0 / 2 ^ 3 % 2 == 1
    then ok (false, release, n1)
    else transmit w frame length release n1

pub output : World → List ℕ → ℕ → Bool → Nic → Result (Bool × Bool × Nic)
output w frame length release n =
    let taken : Nic = record n { spi_free = false } in
    if n.spi_free
    then (if n.link_up
        then output_on_link w frame length release taken
        else ok (true, release, record n { spi_free = true }))
    else ok (false, false, n)

pub set_mac : List ℕ → Enc → Result Enc
set_mac mac s = do
  b1 ← load mac 0
  b2 ← load mac 1
  b3 ← load mac 2
  b4 ← load mac 3
  b5 ← load mac 4
  b6 ← load mac 5
  let s1 = write_ctrl8 0xC5 b2 (write_ctrl8 0xC4 b1 (write_op bfc_inst econ1 4 s))
  let s2 = write_ctrl8 0xC3 b4 (write_ctrl8 0xC2 b3 s1)
  ok (write_op bfs_inst econ1 4 (write_ctrl8 0xC1 b6 (write_ctrl8 0xC0 b5 s2)))
