-- ===== src/Security.antt =====
-- sdks/typescript/src/security/: authorization, receipts, the taint analyzer and the audit log.
pub mod Rbac
pub mod Zk
pub mod Taint
pub mod AuditLogger
