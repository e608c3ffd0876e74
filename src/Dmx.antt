-- ===== src/Dmx.antt =====
-- dmx: the DMX512 port over a SERCOM USART (dmx.c) and the RDM checksums (rdm.c).
pub mod Port
pub mod Buffers
pub mod Receive
pub mod Transmit
pub mod Setup
pub mod Rdm
mod Tests
