-- ===== src/Contracts.antt =====
-- contracts/src: the contract that anchors references on chain.
pub mod Anchor
mod Tests
