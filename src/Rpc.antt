-- ===== src/Rpc.antt =====
-- sdks/typescript/src/rpc/: the transport between nodes.
pub mod Lpm
