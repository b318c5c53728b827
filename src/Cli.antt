-- ===== src/Cli.antt =====
-- cli/src: the command-line verifier.
pub mod Status
mod Tests
