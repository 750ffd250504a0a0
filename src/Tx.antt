-- ===== src/Tx.antt =====
-- tx/: locks, log records and the buffers of a transaction.
pub mod LockTable
pub mod ConcurrencyMgr
pub mod LogRecord
pub mod BufferList
pub mod Transaction
pub mod RecoveryMgr
pub mod Finish
