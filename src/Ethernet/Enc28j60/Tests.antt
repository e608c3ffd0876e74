-- ===== src/Ethernet/Enc28j60/Tests.antt =====
-- Tests of the ENC28J60 driver.
use samlibs.Base.{
  ℕ, ◌/◌, ◌%◌, ◌^◌, ◌≡◌, refl, true, false, inl, inr, List, [], ◌∷◌, ◌++◌, none, if◌then◌else◌, ltb,
  ok, fault, Fault, ◌>>=◌, drop, take, replicate, arith,
}
use samlibs.Ethernet.Enc28j60.{Enc, read_ctrl8, transfer, econ1}
use samlibs.Ethernet.Enc28j60.Bank.{InBank, IsSynced, bank}
use samlibs.Ethernet.Enc28j60.Access.{Access, perform, perform_all, bytes, reset, perform_addressed}
use samlibs.Ethernet.Enc28j60.Buffer.{
  read_buffer, write_buffer, arrived, buffer_read, read_buffer_lem, write_buffer_lem,
}
use samlibs.Ethernet.Enc28j60.Nic.{World, Nic, output}
use samlibs.Ethernet.Enc28j60.Nic.Semaphore.{Call, calls, output_while_transmitting}
use samlibs.Ethernet.Enc28j60.Interrupt.{Spi, Operation, sercom_write}
use samlibs.Ethernet.Enc28j60.Interrupt.Transfer.{interrupts, data_empty, ended, write_completes}

-- EIE, which all banks share, then MACON1 of bank 2, then EPKTCNT of bank 1.
abbrev accesses : List Access
accesses = Access.write 0xFB 0xD0 ∷ Access.write 0x80 0x0D ∷ []

abbrev zeros : List (List ℕ) → ℕ
zeros log = 0

perform_addressed_example :
    (before : List (List ℕ)) × ((perform zeros
        (Access.read 0x59)
        (perform_all zeros accesses reset)).log
      ≡ before ++ bytes (Access.read 0x59) ∷ [])
    × InBank 0x59 (bank 0 before)
    × IsSynced (perform zeros (Access.read 0x59) (perform_all zeros accesses reset))
perform_addressed_example =
    perform_addressed zeros accesses (Access.read 0x59)
      ((inl refl, omega arith), ((inr refl, omega arith), tt)) (inr refl, tt)

abbrev enc : Enc
enc = record { last_bank = 0; log = [] }

read_buffer_lem_example : read_buffer (λ i. i) (9 ∷ 9 ∷ 9 ∷ 9 ∷ []) 2 enc ≡ (
    if ltb 2 4
    then buffer_read 2 enc (arrived (λ i. i) 3 0 ++ drop 3 (9 ∷ 9 ∷ 9 ∷ 9 ∷ []))
    else fault Fault.out_of_range)
read_buffer_lem_example = read_buffer_lem (λ i. i) (9 ∷ 9 ∷ 9 ∷ 9 ∷ []) 2 enc

write_buffer_lem_example :
    write_buffer (replicate 258 7) 258 enc ≡ ok (transfer (0x7A ∷ take 2 (replicate 258 7)) enc)
write_buffer_lem_example = write_buffer_lem (replicate 258 7) 258 enc (omega arith)

-- ECON1 reads as 8: TXRTS is set.
abbrev world : World
world = record {
  reply = λ log. 8;
  incoming = λ log i. 0;
  buffer_for = λ log n. none;
  accepted = λ frame. true;
}

abbrev nic : Nic
nic = record { enc = enc; spi_free = true; link_up = true; next_packet = 0; events = [] }

transmitting : (read_ctrl8 world.reply econ1 nic.enc).0 / 2 ^ 3 % 2 ≡ 1
unfolding read_ctrl8
transmitting = refl

output_while_transmitting_example :
    (n' : Nic) × (output world (1 ∷ 2 ∷ []) 2 true nic ≡ ok (false, true, n'))
    × (calls world (Call.round 5 ∷ Call.send (1 ∷ []) 1 true ∷ []) n' ≡ ok n')
output_while_transmitting_example =
    output_while_transmitting world (1 ∷ 2 ∷ []) 2 true nic
      (Call.round 5 ∷ Call.send (1 ∷ []) 1 true ∷ []) refl refl transmitting

abbrev spi : Spi
spi = record {
  operation = Operation.none;
  write_buffer = [];
  write_index = 0;
  write_length = 0;
  read_buffer = [];
  read_index = 0;
  read_length = 0;
  read_data = 0;
  dre_enabled = false;
  txc_enabled = false;
  rxc_enabled = false;
  rxen = false;
  data_log = [];
  given = 0;
}

write_completes_example :
    (do s1 ← sercom_write (5 ∷ 6 ∷ 7 ∷ []) 3 spi; interrupts (replicate 3 data_empty) s1)
    ≡ ok (ended spi (5 ∷ 6 ∷ 7 ∷ []) 3 ([] ++ 5 ∷ 6 ∷ 7 ∷ []))
write_completes_example = write_completes 5 (6 ∷ 7 ∷ []) spi
