-- ===== src/Sdk.antt =====
-- packages/sdk/src: the canonical encoding that every commitment goes through, the check of a reference
-- against its anchor, and the resolution of a name to its envelope.
pub mod Canonical
pub mod Anchor
pub mod Resolve
mod Tests
