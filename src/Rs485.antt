-- ===== src/Rs485.antt =====
-- comm/rs485.c: a half-duplex RS-485 port with a multi-drop address bit.
pub mod Port
pub mod Send
pub mod Interrupt
mod Tests
