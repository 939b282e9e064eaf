-- ===== src/Server.antt =====
-- The server shell (packages/core/src/server).
pub mod Render
pub mod Refusal
pub mod Calls
pub mod Identify
pub mod Headers
pub mod Answers
pub mod DescribeSource
mod Tests
