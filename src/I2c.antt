-- ===== src/I2c.antt =====
-- The I2C masters of comm.
pub mod Order
pub mod Interrupt
pub mod Polled
mod Tests
