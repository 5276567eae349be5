-- ===== src/Store.antt =====
-- internal/store: what the database keeps.
pub mod IpCodec
mod Runs
