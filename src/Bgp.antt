-- ===== src/Bgp.antt =====
-- internal/bgp: the BGP speaker.
pub mod Wire
pub mod Resync
pub mod Session
pub mod Routes
pub mod Manager
