-- ===== src/Rs485/Tests.antt =====
-- Tests of the RS-485 port.
use samlibs.Base.{
  ℕ, ◌+◌, ◌^◌, ◌≡◌, refl, List, [], ◌∷◌, ◌++◌, true, false, Option, none, some, ok, arith, drop,
}
use samlibs.Sercom.{SercomDataOrder, SercomParity}
use samlibs.Rs485.Port.{Rs485Config, Rs485Status}
use samlibs.Rs485.Send.{send_message}
use samlibs.Rs485.Interrupt.{Flags, rx_loop, interrupt_handler}
use samlibs.Rs485.Interrupt.Receive.{delivered, message_received}
use samlibs.Rs485.Interrupt.Message.{
  waiting, start, data_writes, finish, message_sent, send_message_lem,
}
use samlibs.Rs485.Interrupt.Safety.{Succeeds, interrupt_handler-Succeeds}

-- The device pack of the SAMC20 has DRE at bit 0 and TXC at bit 1.
abbrev config : Rs485Config
config = record {
  has_module = true;
  rxpin = 25;
  txpin = 22;
  dirpin = 24;
  pinmux = 2;
  ledpin = 5;
  ledinv = false;
  baudrate = 250000;
  data_order = SercomDataOrder.lsb_first;
  parity = SercomParity.no_parity;
  stop_bits = 0;
  character_size = 1;
  guard_time = 2;
  use_interrupt = true;
  dre_pos = 0;
  txc_pos = 1;
}

abbrev status : Rs485Status
status = record {
  config = some config;
  tx_buffer = none;
  tx_buffer_size = 0;
  tx_buffer_index = 0;
  rx_buffer = some (0 ∷ 0 ∷ 0 ∷ []);
  rx_buffer_size = 3;
  rx_buffer_index = 1;
  has_rx_queue = true;
  dre_enabled = false;
  txc_enabled = false;
  log = [];
}

abbrev message : List ℕ
message = 7 ∷ 8 ∷ 9 ∷ []

message_received_example :
    rx_loop ((2 ^ 8 + 7) ∷ (8 ∷ 9 ∷ []) ++ (1 ∷ [])) status
    ≡ ok (delivered status (7 ∷ (8 ∷ 9 ∷ []) ++ drop 3 (0 ∷ 0 ∷ 0 ∷ [])))
message_received_example =
    message_received status (0 ∷ 0 ∷ 0 ∷ []) 7 (8 ∷ 9 ∷ []) (1 ∷ []) refl (omega arith)
      (omega arith) refl (omega arith) (omega arith, (omega arith, tt)) (omega arith, tt)

send_message_lem_example :
    send_message (waiting 2) (some message) 3 status
    ≡ ok (
      true,
      message_sent config message
          (start config 7 ++ (data_writes (8 ∷ 9 ∷ []) ++ finish config))
          status,
    )
send_message_lem_example =
    send_message_lem config status 7 8 (9 ∷ []) refl refl refl (omega arith) (omega arith)

abbrev flags : Flags
flags = record { errors = 1; chars = 300 ∷ 1 ∷ 2 ∷ 3 ∷ []; dre = true; txc = true }

interrupt_handler-Succeeds_example : Succeeds (interrupt_handler flags status)
interrupt_handler-Succeeds_example = interrupt_handler-Succeeds flags status (omega arith, tt)

abbrev polled : ℕ → Option ℕ
polled n = some 65
