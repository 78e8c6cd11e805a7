-- ===== src/Bridge.antt =====
-- sdks/typescript/src/bridge/: the HTTP bridge of a server.
pub mod Stream
