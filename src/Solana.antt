-- ===== src/Solana.antt =====
-- solana/src: references anchored as attestations on Solana.
pub mod Hex
pub mod Schema
pub mod Revocation
pub mod Verify
mod Tests
