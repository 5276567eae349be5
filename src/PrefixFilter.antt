-- ===== src/PrefixFilter.antt =====
-- internal/prefixfilter: set operations on lists of prefixes.
pub mod Subtract
pub mod Normalize
pub mod Apply
pub mod Aggregate
pub mod Exclude
