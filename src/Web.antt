-- ===== src/Web.antt =====
-- internal/web: the web interface.
pub mod Session
mod Runs
