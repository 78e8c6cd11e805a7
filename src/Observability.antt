-- ===== src/Observability.antt =====
-- sdks/typescript/src/observability/.
pub mod Metrics
