-- ===== src/Bls.antt =====
-- The BLS server (packages/server-bls/src).
pub mod Chunks
pub mod Series
pub mod Refusals
pub mod Qcew
pub mod SeriesIds
pub mod Programs
mod Tests
