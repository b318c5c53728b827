-- ===== src/Seal.antt =====
-- packages/seal/src: sealing under Swarm's access control trie.
pub mod Errors
pub mod Pubkey
pub mod Queue
pub mod Postage
pub mod Refs
pub mod Receipt
pub mod Envelope
pub mod Keeper
pub mod Client
mod Tests
