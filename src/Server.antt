-- ===== src/Server.antt =====
-- sdks/typescript/src/server/: the server's own guards.
pub mod Budget
pub mod Pii
pub mod Aggregation
pub mod ToolRate
