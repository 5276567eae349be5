-- ===== src/Bgp/Wire.antt =====
-- internal/bgp/wire_types.go, wire_encode.go and wire_decode.go: BGP messages and their bytes.
pub mod Bytes
pub mod Types
pub mod Prefixes
pub mod Attributes
pub mod Messages
pub mod Decided
pub mod Runs
pub mod Size
