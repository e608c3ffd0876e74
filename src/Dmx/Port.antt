-- ===== src/Dmx/Port.antt =====
-- The types of dmx.h, and the hardware that dmx.c drives.
--
-- `DmxBuffer_t *` is `Option ℕ`: NULL, or an index into the buffers of the system, of which the
-- first DMX_BUFFERING are the array `rxBuffers` of the port and the others frames that the
-- application owns. So a received buffer that is sent again is one buffer, as in the program.
-- Writes to registers and pins are the entries of a log, the newest last; the two interrupt
-- enables that the handler reads back are fields.
use samlibs.Base.{ℕ, List, [], ◌∷◌, ◌++◌, Bool, Option, Result, ◌>>=◌, deref, load, store}

abbrev pub dmx_max_slots : ℕ
dmx_max_slots = 512

abbrev pub dmx_startcode_index : ℕ
dmx_startcode_index = 0

abbrev pub dmx_buffering : ℕ
dmx_buffering = 3

abbrev pub dmx_breakbyte : ℕ
dmx_breakbyte = 0x00

abbrev pub dmx_startcode : ℕ
dmx_startcode = 0x00

abbrev pub rdm_startcode : ℕ
rdm_startcode = 0xCC

abbrev pub rdm_minimumframelength : ℕ
rdm_minimumframelength = 24

-- `DmxBuffer_t`. The union's view `rdm` is read through the offsets of its packed structure.
pub record DmxBuffer : Type 0 where
  pub dmx : List ℕ
  pub slot_count : ℕ
  pub read : Bool
  pub written : Bool
  pub valid : Bool

-- The offsets of `rdm.messageLength` and of `rdm.message`.
abbrev pub message_length_index : ℕ
message_length_index = 2

abbrev pub message_index : ℕ
message_index = 20

pub data DmxState : Type 0 where
  idle break mark start_code slots rdm max_states : DmxState

pub data DmxActivity : Type 0 where
  idle dmx rdm : DmxActivity

-- The fields of `DmxPortHardware_t` that the modelled functions read.
pub record DmxPortHardware : Type 0 where
  pub has_module : Bool
  pub txpin : ℕ
  pub pinmux : ℕ

pub data Action : Type 0 where
  clear_bufovf clear_ferr enable_txc disable_dre_txc byte_received : Action
  write_data : ℕ → Action
  set_pin : ℕ → Action
  clear_pin : ℕ → Action
  pin_direction_out : ℕ → Action
  pin_function_off : ℕ → Action
  pin_function : ℕ → ℕ → Action

-- `DmxPortConfig_t`, with the registers of its SERCOM.
pub record DmxPort : Type 0 where
  pub hw : DmxPortHardware
  pub rx_state : DmxState
  pub tx_state : DmxState
  pub current_tx_slot : ℕ
  pub break_byte_count : ℕ
  pub buffers : List DmxBuffer
  pub current_rx : Option ℕ
  pub last_valid_rx : Option ℕ
  pub current_tx : Option ℕ
  pub activity : DmxActivity
  pub dre_enabled : Bool
  pub txc_enabled : Bool
  pub log : List Action

abbrev pub emit : Action → DmxPort → DmxPort
emit a p = record p { log = p.log ++ (a ∷ []) }

-- `*b`, for `b : DmxBuffer_t *`, and the write of a whole buffer through it.
abbrev pub buffer_at : List DmxBuffer → Option ℕ → Result DmxBuffer
buffer_at bs b = do i ← deref b; load bs i

abbrev pub put_buffer : List DmxBuffer → Option ℕ → DmxBuffer → Result (List DmxBuffer)
put_buffer bs b v = do i ← deref b; store bs i v

-- The callbacks of the application. `cb_newRxFrame` and `cb_newRdmMessage` are given the buffer
-- and may change the buffers; `cb_byteReceived` only leaves its entry in the log.
pub record Callbacks : Type 0 where
  pub new_rx_frame : Option (Option ℕ → List DmxBuffer → List DmxBuffer)
  pub new_rdm_message : Option (Option ℕ → List DmxBuffer → List DmxBuffer)
  pub has_byte_received : Bool

-- One character that the USART hands over: DATA, the flags of STATUS, and whether the pin is low.
pub record Received : Type 0 where
  pub byte : ℕ
  pub bufovf : Bool
  pub ferr : Bool
  pub pin_low : Bool
