-- ===== src/Utilities.antt =====
-- utilities.c: the parsers of hexadecimal text and the causes of a reset.
pub mod Hex
pub mod Reset
