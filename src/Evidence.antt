-- ===== src/Evidence.antt =====
-- packages/evidence/src: the evidence that a reference rests on, from the calls of the data service to
-- the claims and their check.
pub mod Numbers
pub mod RateLimit
pub mod Client
pub mod Bundle
pub mod Specs
pub mod Derivation
pub mod Claims
pub mod Chains
pub mod Sources
pub mod Cycles
pub mod Metrics
pub mod Verify
pub mod Claimset
pub mod Workers
pub mod Build
mod Tests
