-- ===== src/Indicators.antt =====
-- The indicator tools that every agency's server mounts (packages/core/src/indicators).
pub mod Observations
pub mod Registry
pub mod Series
pub mod GetIndicator
pub mod Compare
pub mod ListIndicators
mod Tests
