-- ===== src/SpiShiftRegisters/Tests.antt =====
-- Tests of the shift registers behind a SERCOM.
use samlibs.Base.{◌+◌, ◌≡◌, refl, [], ◌∷◌, ◌++◌, drop, true, false, none, some, ok, arith}
use samlibs.Sercom.{SercomDataOrder}
use samlibs.SpiShiftRegisters.{Action, SpiShiftRegistersConfig, latch, transfer}
use samlibs.SpiShiftRegisters.Transfer.{arriving, rounds_log, transfer_lem}

abbrev config : SpiShiftRegistersConfig
config = record {
  hw = record {
    pin_mosi = 16;
    pin_miso = 18;
    pin_clk = 17;
    pin_cs = 20;
    pinmux_sercom = 2;
    baud = 1000000;
  };
  data_order = SercomDataOrder.msb_first;
  is_init = true;
  write_message = none;
  read_message = none;
  message_size = 0;
  read_index = 0;
  write_index = 0;
  looks = 0;
  has_task = true;
  latch_high = true;
  dre_enabled = false;
  log = [];
}

-- Of the bytes 100, 101 and 102 that arrive, the last is not read.
two_of_three : arriving (λ k. 100 + k) 0 2 ++ drop 2 (0 ∷ 0 ∷ 0 ∷ []) ≡ 100 ∷ 101 ∷ 0 ∷ []
two_of_three = refl

transfer_lem_example :
    transfer 15 (λ k. 100 + k) (some (1 ∷ 2 ∷ 3 ∷ [])) (some (0 ∷ 0 ∷ 0 ∷ [])) 3 config
    ≡ ok (record config {
      write_message = some (1 ∷ 2 ∷ 3 ∷ []);
      read_message = some (arriving (λ k. 100 + k) 0 2 ++ drop 2 (0 ∷ 0 ∷ 0 ∷ []));
      message_size = 3;
      read_index = 2;
      write_index = 3;
      looks = 0 + 2;
      log =
          []
          ++ (latch 15 20
              ++ (Action.write_data 1 ∷ rounds_log (1 ∷ 2 ∷ 3 ∷ []) 0 2
                  ++ (Action.await_txc ∷ latch 15 20)));
    })
transfer_lem_example =
    transfer_lem config 15 (λ k. 100 + k) (1 ∷ 2 ∷ 3 ∷ []) (0 ∷ 0 ∷ 0 ∷ []) 1 (omega arith)
      (omega arith) (omega arith)
