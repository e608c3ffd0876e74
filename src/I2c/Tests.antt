-- ===== src/I2c/Tests.antt =====
-- Tests of the I2C masters.
use samlibs.Base.{
  drop, ◌%◌, ◌^◌, ℕ, ◌+◌, ◌≡◌, refl, [], ◌∷◌, ◌++◌, true, false, none, some, Fault, ok, fault,
  arith,
}
use samlibs.I2c.Interrupt.{
  I2CTransactionType, I2CState, I2CTransaction, I2CInterruptConfig, begin, sb_routine, serve,
}
use samlibs.I2c.Interrupt.Write.{mb_run, transfer, write_log, write_transaction}
use samlibs.I2c.Interrupt.Read.{exchange, answered, read_log, read_register}
use samlibs.I2c.Interrupt.Again.{read_again}
use samlibs.I2c.Polled.{
  Answer, Wire, Action, read_bytes, write_bytes_le, write_bytes16_le, write_bytes16_be,
}
use samlibs.I2c.Polled.Bytes.{bus, incoming, read_actions, read_bytes_lem}
use samlibs.I2c.Polled.Write.{Writes, transfer_log, write_bytes_lem}
use samlibs.I2c.Order.{ordered}
use samlibs.I2c.Interrupt.{read_address}

abbrev config : I2CInterruptConfig
config = record {
  baudrate = 400000;
  pin_sda = 8;
  pin_scl = 9;
  pinmux = 2;
  current = none;
  state = I2CState.idle;
  log = [];
}

abbrev writing : I2CTransaction
writing = record {
  device_address = 0xA0;
  register_address = 5;
  data_bytes = some (1 ∷ 2 ∷ 3 ∷ []);
  data_length = 3;
  data_counter = 3;
  transaction_type = I2CTransactionType.write;
  success = false;
  big_endian = false;
}

abbrev reading : I2CTransaction
reading = record writing { transaction_type = I2CTransactionType.writeread; big_endian = true }

write_transaction_example :
    mb_run 5 (begin writing config)
    ≡ ok (
        transfer
          (record writing { success = false })
          I2CState.write_data
          3
          ([] ++ write_log writing (1 ∷ 2 ∷ 3 ∷ []))
          config)
write_transaction_example =
    write_transaction writing (1 ∷ 2 ∷ 3 ∷ []) config refl refl refl (omega arith)

read_register_example :
    serve (exchange (7 ∷ 8 ∷ 9 ∷ [])) (reading ∷ []) config
    ≡ ok (
      some (answered reading (1 ∷ 2 ∷ 3 ∷ []) (7 ∷ 8 ∷ 9 ∷ [])) ∷ [],
      record config {
        current = some (answered reading (1 ∷ 2 ∷ 3 ∷ []) (7 ∷ 8 ∷ 9 ∷ []));
        state = I2CState.read_data;
        log = [] ++ read_log reading;
      },
    )
read_register_example =
    read_register reading (1 ∷ 2 ∷ 3 ∷ []) 7 (8 ∷ 9 ∷ []) config refl refl refl (omega arith)
      (omega arith)

read_again_example :
    sb_routine 7 (begin (record writing { transaction_type = I2CTransactionType.read }) config)
    ≡ fault Fault.out_of_range
read_again_example =
    read_again (record writing { transaction_type = I2CTransactionType.read }) (1 ∷ 2 ∷ 3 ∷ []) 7
      config refl refl refl (omega arith)

-- A slave that answers at once and sends 100, 101, and so on.
abbrev wire : Wire
wire = record { answer_at = λ k. Answer.ready false; data_at = λ r. 100 + r }

read_bytes_lem_example :
    (k : ℕ) × (read_bytes wire true 0xA0 (0 ∷ 0 ∷ 0 ∷ 7 ∷ []) 3 (bus 0 0 [])
      ≡ ok (
        2 % 2 ^ 8,
        ordered true (incoming wire 0 3) ++ drop 3 (0 ∷ 0 ∷ 0 ∷ 7 ∷ []),
        bus k 3
            ([] ++ (Action.ackact 0 ∷ Action.write_address (read_address 0xA0) ∷ read_actions 3)),
      ))
read_bytes_lem_example =
    read_bytes_lem wire true 0xA0 2 (0 ∷ 0 ∷ 0 ∷ 7 ∷ []) (bus 0 0 []) (λ k. refl) (omega arith)

write_bytes_lem_example :
    Writes
      (write_bytes_le wire 0xA0 44 (1 ∷ 2 ∷ []) 2 (bus 0 0 []))
      (bus 0 0 [])
      (transfer_log 0xA0 (44 ∷ []) (1 ∷ 2 ∷ []))
    × Writes
        (write_bytes16_le wire 0xA0 44 (1 ∷ 2 ∷ []) 2 (bus 0 0 []))
        (bus 0 0 [])
        (transfer_log 0xA0 (44 ∷ 0 ∷ []) (1 ∷ 2 ∷ []))
    × Writes
        (write_bytes16_be wire 0xA0 44 (1 ∷ 2 ∷ []) 2 (bus 0 0 []))
        (bus 0 0 [])
        (transfer_log 0xA0 (0 ∷ 44 ∷ []) (2 ∷ 1 ∷ []))
write_bytes_lem_example = write_bytes_lem wire 0xA0 44 (1 ∷ 2 ∷ []) (bus 0 0 []) (λ k. refl)
