-- ===== src/Crypto.antt =====
-- sdks/typescript/src/crypto/.
pub mod LogicImageId
