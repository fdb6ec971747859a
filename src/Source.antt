-- ===== src/Source.antt =====
-- internal/source/source.go: the family filter, the order of prefixes and Normalize.
pub mod Aggregate
pub mod Sorting
pub mod Normalize
pub mod Fetch
pub mod Parsers
