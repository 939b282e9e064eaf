-- ===== src/Http.antt =====
-- packages/core/src/http: the client through which every agency is queried.
pub mod RateLimit
pub mod ErrorWindow
pub mod Budget
pub mod Retry
pub mod Client
pub mod Fetch
pub mod Notes
pub mod Request
pub mod Cached
mod Tests
