-- ===== src/System.antt =====
-- The modules of system.
pub mod Clocks
pub mod Eic
pub mod Interrupts
pub mod Events
pub mod SerialNumber
mod Tests
