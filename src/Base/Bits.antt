-- ===== src/Base/Bits.antt =====
-- The bit operations as arithmetic.
pub mod Step
pub mod Fields
pub mod Xor
