-- ===== src/Ethernet.antt =====
-- The Ethernet drivers of FreeRTOS/TCP/portable/NetworkInterface.
pub mod Link
pub mod Mac
pub mod Ksz9893
pub mod PhyGeneric
pub mod Enc28j60
mod Tests
