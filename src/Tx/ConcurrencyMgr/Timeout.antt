-- ===== src/Tx/ConcurrencyMgr/Timeout.antt =====
-- What a shared lock that times out leaves behind.
use sample_db.Base.{◌≡◌, List, [], true, pos, err, thrown, arith}
use sample_db.File.BlockId.{BlockId, block_eq, block_beq_iff}
use sample_db.Tx.LockTable.{LockTable, WakeUp, has_x_lock, get_lock_val}
use sample_db.Tx.LockTable
use sample_db.Tx.LockTable.Laws.{s_lock_refused, get_lock_val-unlock}
use sample_db.Tx.ConcurrencyMgr.{s_lock, release}

-- A transaction without locks asks for a shared lock, times out while another transaction has the
-- block exclusively, and releases its locks, as a rollback does: the other's exclusive lock is
-- gone from the table.
pub release-s_lock_refused :
    (ws : List WakeUp) (blk : BlockId) (t : LockTable)
    → (s_lock ws blk (record { locks = []; table = t })).0 ≡ err thrown
    → (has_x_lock blk (s_lock ws blk (record { locks = []; table = t })).1.table ≡ true)
      × (get_lock_val blk (release (s_lock ws blk (record { locks = []; table = t })).1).table
          ≡ pos 0)
unfolding s_lock release
release-s_lock_refused ws blk t e = ground (
  arith,
  s_lock_refused ws blk t,
  get_lock_val-unlock blk blk (LockTable.s_lock ws blk t).1,
  block_beq_iff blk blk,
)
