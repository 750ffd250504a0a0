-- ===== src/Tx/Finish.antt =====
-- tx/Transaction.cpp: how a transaction begins and ends.
use sample_db.Base.{ℕ, true, false, [], ℤ, pos, ◌+ℤ◌, Result, ok, ◌>>=◌, if◌then◌else◌}
use sample_db.Buffer.Pool.{BufferMgr}
use sample_db.Tx.LockTable.{LockTable}
use sample_db.Tx.ConcurrencyMgr.{release}
use sample_db.Tx.LogRecord.{start}
use sample_db.Tx.BufferList.{unpin_all}
use sample_db.Tx.Transaction.{Transaction, Waits, write_to_log}
use sample_db.Tx.RecoveryMgr.{commit_log, rollback_log, recover_log, flush_own}

-- `newTransactionNumber`: the counter that all transactions share is the number of the last one.
abbrev pub new_transaction_number : ℤ → ℤ
new_transaction_number last = last +ℤ pos 1

-- The constructor of the recovery manager logs the start of its transaction.
unfoldable pub new_recovery_mgr : Transaction → Result Transaction
new_recovery_mgr t = do (t', lsn) ← write_to_log t (start t.tx_num); ok t'

-- The constructor.
unfoldable pub new_transaction : ℤ → BufferMgr → LockTable → Result Transaction
new_transaction last bm table = new_recovery_mgr (record {
  tx_num = new_transaction_number last;
  bm = bm;
  cm = record { locks = []; table = table };
  buffers = record { buffers = []; pinned = [] };
  finished = false;
})

-- The locks are released and the buffers unpinned: also `forceConcurrencyRelease`.
unfoldable pub release_all : Transaction → Result Transaction
release_all t = do
  let c = release t.cm
  (bm, l) ← unpin_all t.bm t.buffers
  ok (record t { cm = c; bm = bm; buffers = l })

unfoldable pub finish : Transaction → Result Transaction
finish t = do t' ← release_all t; ok (record t' { finished = true })

-- The destructor.
abbrev pub destroy : Transaction → Result Transaction
destroy t = if t.finished then ok t else release_all t

unfoldable pub commit : Transaction → Result Transaction
commit t = do t' ← commit_log t; finish t'

module _ (env : Transaction → Waits) where
  unfoldable pub rollback : ℕ → Transaction → Result Transaction
  rollback fuel t = do t' ← rollback_log env fuel t; finish t'

  -- `recover`: the buffers of the transaction are flushed first.
  unfoldable pub recover : ℕ → Transaction → Result Transaction
  recover fuel t = do t1 ← flush_own t; t2 ← recover_log env fuel t1; finish t2
