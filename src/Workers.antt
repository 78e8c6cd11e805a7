-- ===== src/Workers.antt =====
-- sdks/typescript/src/workers/: the worker that runs logic and signs a receipt, and the worker that
-- verifies receipts.
pub mod Runtime
pub mod LogicExecution
pub mod ZkVerifier
