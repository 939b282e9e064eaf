-- ===== src/Geography.antt =====
-- Places (packages/core/src/geography).
pub mod Identifiers
pub mod Types
pub mod Tools
pub mod Names
pub mod Flags
pub mod Dominance
pub mod Catalog
pub mod Candidates
pub mod Resolver
mod Tests
