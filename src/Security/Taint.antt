-- ===== src/Security/Taint.antt =====
-- sdks/typescript/src/security/taint-analyzer.ts: static information-flow analysis of injected JavaScript.
pub mod Ast
pub mod Eval
pub mod Pure
pub mod Refines
pub mod Inclusion
pub mod Monotone
pub mod Depth
pub mod Passes
pub mod Gates
pub mod Analyze
pub mod Repeats
pub mod SmallData
pub mod Analysis
pub mod Flows
pub mod Walk
mod Tests
