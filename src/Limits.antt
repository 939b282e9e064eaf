-- ===== src/Limits.antt =====
-- packages/core/src/limits: daily counters, the limiter and the per-minute split.
pub mod Config
pub mod CounterStore
pub mod MemoryStore
pub mod DynamoStore
pub mod Keys
pub mod Limiter
pub mod Split
pub mod Context
mod Tests
