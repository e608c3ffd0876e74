-- ===== src/Ethernet/Enc28j60/Interrupt.antt =====
-- FreeRTOS/TCP/portable/NetworkInterface/ENC28J60/enc28j60_int.c: the SPI transfers by interrupts.
--
-- A pointer into a buffer is the buffer with an index. `data` holds what is written to DATA, the
-- newest last. A task waits for the semaphore; `given` counts how often the handler gave it.
pub mod Transfer
use samlibs.Base.{
  ℕ, zero, suc, ◌+◌, ◌-◌, ◌%◌, ◌^◌, Bool, true, false, ◌&&◌, List, [], ◌∷◌, ◌++◌, if◌then◌else◌,
  ◌==◌, Result, ok, ◌>>=◌, load, store,
}

pub data Operation : Type 0 where
  none write write_read write_read_macmii read_buffer : Operation

-- The context, the interrupts that are enabled, and RXEN.
pub record Spi : Type 0 where
  pub operation : Operation
  pub write_buffer : List ℕ
  pub write_index : ℕ
  pub write_length : ℕ
  pub read_buffer : List ℕ
  pub read_index : ℕ
  pub read_length : ℕ
  pub read_data : ℕ
  pub dre_enabled : Bool
  pub txc_enabled : Bool
  pub rxc_enabled : Bool
  pub rxen : Bool
  pub data_log : List ℕ
  pub given : ℕ

-- The flags of INTFLAG, and the character in DATA.
pub record Flags : Type 0 where
  pub dre : Bool
  pub txc : Bool
  pub rxc : Bool
  pub character : ℕ

abbrev pub send : ℕ → Spi → Spi
send v s = record s { data_log = s.data_log ++ v ∷ [] }

-- The end of an operation: the semaphore is given.
abbrev pub finish : Spi → Spi
finish s = record s { operation = Operation.none; given = suc s.given }

-- `ENC28J60_SERCOM_write` up to its wait.
pub sercom_write : List ℕ → ℕ → Spi → Result Spi
sercom_write buf zero s = ok s
sercom_write buf (suc n) s = do
  b ← load buf 0
  ok (record (send b s) {
    operation = Operation.write;
    write_buffer = buf;
    write_index = 1;
    write_length = n;
    dre_enabled = true;
  })

pub sercom_writeread : ℕ → Spi → Spi
sercom_writeread w s = record (send w s) { operation = Operation.write_read; dre_enabled = true }

pub sercom_writeread_macmii : ℕ → Spi → Spi
sercom_writeread_macmii w s = record (send w s) {
  operation = Operation.write_read_macmii;
  read_buffer = 0 ∷ 0 ∷ [];
  read_index = 0;
  read_length = 2;
  dre_enabled = true;
}

pub sercom_read_buffer : List ℕ → ℕ → Spi → Spi
sercom_read_buffer buf len s = record (send 0x3A s) {
  operation = Operation.read_buffer;
  read_buffer = buf;
  read_index = 0;
  read_length = len;
  dre_enabled = true;
}

-- The branch of DRE, by the operation.
pub on_write : ℕ → Spi → Result Spi
on_write zero s = ok (finish (record s { dre_enabled = false }))
on_write (suc n) s = do
  b ← load s.write_buffer s.write_index
  ok (record (send b s) { write_index = s.write_index + 1; write_length = n })

abbrev pub turn_around : Spi → Spi
turn_around s = record (send 0xFF s) { dre_enabled = false; rxc_enabled = true; rxen = true }

pub on_dre : Operation → Spi → Result Spi
on_dre Operation.none s = ok (finish (record s { dre_enabled = false }))
on_dre Operation.write s = on_write s.write_length s
on_dre Operation.write_read s = ok (turn_around s)
on_dre Operation.write_read_macmii s = ok (turn_around s)
on_dre Operation.read_buffer s = ok (turn_around s)

-- The branch of TXC is the same for every operation.
pub on_txc : Spi → Spi
on_txc s = finish (record s { txc_enabled = false })

-- `--spi_context.read_length`
abbrev pub decrement : ℕ → ℕ
decrement n = (n + 2 ^ 16 - 1) % 2 ^ 16

pub on_read : ℕ → Spi → Result Spi
on_read c s = do
  buf ← store s.read_buffer s.read_index c
  let s1 = record s {
    read_buffer = buf;
    read_index = s.read_index + 1;
    read_length = decrement s.read_length;
  }
  ok (
      if decrement s.read_length == 0
      then finish (record s1 { rxc_enabled = false; rxen = false })
      else send 0xFF s1)

pub on_rxc : Operation → ℕ → Spi → Result Spi
on_rxc Operation.none c s = ok (finish (record s { read_data = c; rxen = false }))
on_rxc Operation.write c s = ok (finish (record s { read_data = c; rxen = false }))
on_rxc Operation.write_read c s =
    ok (finish (record s { read_data = c; rxc_enabled = false; rxen = false }))
on_rxc Operation.write_read_macmii c s = on_read c s
on_rxc Operation.read_buffer c s = on_read c s

pub sercom_handler : Flags → Spi → Result Spi
sercom_handler f s =
    if f.dre && s.dre_enabled
    then on_dre s.operation s
    else (if f.txc && s.txc_enabled
        then ok (on_txc s)
        else (if f.rxc && s.rxc_enabled then on_rxc s.operation (f.character % 2 ^ 8) s else ok s))
