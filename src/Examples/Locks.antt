-- ===== src/Examples/Locks.antt =====
-- Transactions on a lock table, and their log records.
use sample_db.Base.{
  ℕ, ◌≡◌, ◌≢◌, refl, List, [], ◌∷◌, codes, true, false, ◌⊎◌, inl, inr, ◌+ℤ◌, pos, negsuc, ok, err,
  thrown, ◌>>=◌, some, none, arith, find, put, str_beq,
}
use sample_db.File.BlockId.{BlockId, block_eq}
use sample_db.Tx.LockTable.{LockTable, has_x_lock, has_other_s_locks, get_lock_val, WakeUp}
use sample_db.Tx.LockTable
use sample_db.Tx.LockTable.Waiting.{Waited, lock-Waited}
use sample_db.Tx.ConcurrencyMgr.{ConcurrencyMgr, Mode, exclusive, s_lock, x_lock, release}
use sample_db.Tx.ConcurrencyMgr.Counts.{no_locks}
use sample_db.Tx.ConcurrencyMgr.System.{Reach, upgrades, here, next, after}
use sample_db.Tx.ConcurrencyMgr.Exclusion.{start, exclusive-alone}
use sample_db.Tx.ConcurrencyMgr.Timeout.{release-s_lock_refused}
use sample_db.Tx.LogRecord.{
  LogRecord, set_int_record, set_string_record, log_bytes, create_log_record,
}
use sample_db.Tx.LogRecord.RoundTrip.{create-log_bytes}
use sample_db.Tx.LogRecord.Strings.{create-set_string_bytes}

abbrev block : BlockId
block = record { file_name = codes "t"; number = pos 3 }

-- The first of two transactions takes the block exclusively.
abbrev owner : ConcurrencyMgr
owner = record { locks = (block, exclusive) ∷ []; table = (block, negsuc 0) ∷ [] }

owner_reached : Reach (start 2) (after (start 2) 0 owner)
unfolding no_locks x_lock s_lock find put str_beq
owner_reached = next here (upgrades 0 [] block owner refl refl)

exclusive-alone_example : find {V = Mode} block [] ≡ none
unfolding no_locks find str_beq
exclusive-alone_example =
    exclusive-alone 2 (after (start 2) 0 owner) 0 1 owner.locks [] block owner_reached zero_one refl
      refl refl
  where
    zero_one : ◌≢◌ {A = ℕ} 0 1
    zero_one e = omega arith

-- The clock passes the limit at once.
abbrev too_late : List WakeUp
too_late = record { elapsed = 10_001; others = λ t. t } ∷ []

abbrev taken : LockTable
taken = (block, negsuc 0) ∷ []

-- While a call waits, the exclusive lock goes at the second wake-up.
abbrev soon_free : List WakeUp
soon_free =
    record { elapsed = 10; others = λ t. [] } ∷ record { elapsed = 20; others = λ t. t } ∷ too_late

lock-Waited_example :
    ((t' : LockTable) × Waited (has_x_lock block) soon_free taken t'
      × (((has_x_lock block t' ≡ false)
            × (LockTable.s_lock soon_free block taken
                ≡ (ok tt, put block (get_lock_val block t' +ℤ pos 1) t')))
          ⊎ ((has_x_lock block t' ≡ true)
              × (LockTable.s_lock soon_free block taken ≡ (err thrown, t')))))
    × ((t' : LockTable) × Waited (has_other_s_locks block) soon_free taken t'
        × (((has_other_s_locks block t' ≡ false)
              × (LockTable.x_lock soon_free block taken ≡ (ok tt, put block (negsuc 0) t')))
            ⊎ ((has_other_s_locks block t' ≡ true)
                × (LockTable.x_lock soon_free block taken ≡ (err thrown, t')))))
lock-Waited_example = lock-Waited soon_free block taken (inr (inr (inl refl)))

refused : (s_lock too_late block (record { locks = []; table = taken })).0 ≡ err thrown
unfolding s_lock find put str_beq
refused = refl

release-s_lock_refused_example :
    (has_x_lock block (s_lock too_late block (record { locks = []; table = taken })).1.table ≡ true)
    × (get_lock_val block
          (release (s_lock too_late block (record { locks = []; table = taken })).1).table
        ≡ pos 0)
release-s_lock_refused_example = release-s_lock_refused too_late block taken refused

abbrev int_update : LogRecord
int_update = set_int_record (pos 2) block (pos 80) (negsuc 4)

create-log_bytes_example :
    (do bytes ← log_bytes int_update; create_log_record bytes) ≡ ok (some int_update)
create-log_bytes_example =
    create-log_bytes int_update ((omega arith, omega arith, omega arith, omega arith), omega arith)

create-set_string_bytes_example :
    (do
      bytes ← log_bytes (set_string_record (pos 2) block (pos 80) (codes "name"))
      create_log_record bytes)
    ≡ ok (some (set_string_record (pos 2) block (pos 80) []))
create-set_string_bytes_example =
    create-set_string_bytes (pos 2) block (pos 80) (codes "name")
      (omega arith, omega arith, omega arith, omega arith) (omega arith)
