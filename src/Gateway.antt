-- ===== src/Gateway.antt =====
-- gateway/src: the CCIP-Read gateway. It parses and stores the public envelopes, admits a publish
-- signed by the owner of a name, and signs the answers to lookups.
pub mod Failure
pub mod Platform
pub mod Json
pub mod Envelope
pub mod Store
pub mod Publish
pub mod Dns
pub mod Query
pub mod Lookup
pub mod Feed
pub mod FileStore
pub mod Owner
mod Tests
