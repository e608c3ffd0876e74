-- ===== src/Rs485/Send.antt =====
-- The transmission functions of rs485.c that the application calls.
pub mod Poll
use samlibs.Base.{
  ℕ, zero, suc, ◌+◌, ◌%◌, ◌^◌, List, [], ◌∷◌, ◌++◌, Bool, true, false, Option, none, some, ◌==◌,
  if◌then◌else◌, bit_or, Result, ok, fault, ◌>>=◌, deref, load,
}
use samlibs.Rs485.Port.{
  Action, Field, Rs485Config, Rs485Status, emit, clear_interrupts, set_interrupts,
  rs485_addressmask, char_9bit, txc_or_dre,
}

pub send_char : Option Rs485Config → ℕ → List Action
send_char none c = []
send_char (some config) c = Action.write_data c ∷ []

pub send_char_wait : Option Rs485Config → ℕ → List Action
send_char_wait none c = []
send_char_wait (some config) c = Action.write_data c ∷ Action.await_txc ∷ []

-- The loop of `vRs485SendBuffer` from the index `i`, with `n` bytes to go.
pub send_bytes : List ℕ → ℕ → ℕ → Result (List Action)
send_bytes buffer i zero = ok []
send_bytes buffer i (suc n) = do
  byte ← load buffer i
  rest ← send_bytes buffer (i + 1) n
  ok (Action.write_data byte ∷ Action.await_dre ∷ rest)

pub send_buffer : Option Rs485Config → Option (List ℕ) → ℕ → Result (List Action)
send_buffer none buffer size = ok []
send_buffer (some c) none size = ok []
send_buffer (some c) (some buffer) size = send_bytes buffer 0 size

-- `xRs485SendMessage` up to the wait.
unfoldable pub send_start : Rs485Config → Option (List ℕ) → ℕ → Rs485Status → Result Rs485Status
send_start c message size s = do
  memory ← deref message
  first ← load memory 0
  let word = if c.character_size == char_9bit then bit_or rs485_addressmask first else first
  let s1 : Rs485Status = record s {
    tx_buffer = message;
    tx_buffer_size = size;
    tx_buffer_index = 1;
    log =
        s.log
        ++ (Action.write_field Field.txen 1
            ∷ Action.pin_function_off c.rxpin
            ∷ Action.write_data word
            ∷ Action.clear_txc
            ∷ []);
  }
  ok (set_interrupts c (2 ^ c.dre_pos) s1)

-- `xRs485SendMessage`. While the task waits for its notification the interrupts run: `wait` is
-- their effect, and the result of xTaskNotifyWait.
unfoldable pub send_with :
    (Rs485Status → Result (Bool × Rs485Status))
    → Option (List ℕ)
    → ℕ
    → Rs485Status
    → Option Rs485Config
    → Result (Bool × Rs485Status)
send_with wait message size s none = ok (false, s)
send_with wait message size s (some c) = do
  s1 ← send_start c message size s
  waited ← wait s1
  ok (waited.0, clear_interrupts c txc_or_dre waited.1)

unfoldable pub send_message :
    (Rs485Status → Result (Bool × Rs485Status))
    → Option (List ℕ)
    → ℕ
    → Rs485Status
    → Result (Bool × Rs485Status)
send_message wait message size s = send_with wait message size s s.config

abbrev pub or_else : Option ℕ → Option ℕ → Option ℕ
or_else none rest = rest
or_else (some c) rest = some c

-- `while(cnt--)` of `xRs485ReceiveChar`: `polled i` is what the look at RXC finds after `i`
-- earlier ones, the character in DATA or none.
pub poll : ℕ → ℕ → (ℕ → Option ℕ) → Option ℕ
poll zero i polled = none
poll (suc cnt) i polled = let rest = poll cnt (suc i) polled in or_else (polled i) rest

-- The character for pdPASS, none for pdFAIL.
pub receive_char : Option Rs485Config → (ℕ → Option ℕ) → Option ℕ
receive_char none polled = none
receive_char (some config) polled = poll 5000 0 polled
