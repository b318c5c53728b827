-- ===== src/App.antt =====
-- app/src/lib: the code behind the web application's pages.
pub mod Mrz
pub mod Ndjson
mod Tests
