-- ===== src/Tx/RecoveryMgr.antt =====
-- tx/RecoveryMgr.cpp, and the `undo` of tx/LogRecord/: commit, rollback and recovery. The loops over
-- the log have fuel.
pub mod Undo
pub mod Loops
pub mod Whole
use sample_db.Base.{
  ℕ, zero, suc, List, [], ◌∷◌, Bool, true, false, ◌||◌, Option, none, some, Str, ℤ, pos, int_eq,
  ◌==◌, Result, ok, err, fault, starved, ◌>>=◌, of_option, if◌then◌else◌,
}
use sample_db.File.BlockId.{BlockId}
use sample_db.Logging.{LogIterator, iterator, has_next, next, flush}
use sample_db.Buffer.Pool.{flush_all}
use sample_db.Tx.LogRecord.{
  LogRecord, checkpoint, start, commit, rollback, set_int_record, set_string_record, op, tx_number,
  create_log_record,
}
use sample_db.Tx.LogRecord
use sample_db.Tx.Transaction.{Transaction, Waits, write_to_log, pin, unpin, set_int, set_string}

-- `flushAll(_txNum)` of the buffer manager.
unfoldable pub flush_own : Transaction → Result Transaction
flush_own t = do bm ← flush_all t.bm t.tx_num; ok (record t { bm = bm })

-- A record goes to the log, and the log to the disk.
unfoldable pub write_and_flush : Transaction → LogRecord → Result Transaction
write_and_flush t r = do
  (t', lsn) ← write_to_log t r
  (fm, lm) ← flush t'.bm.fm t'.bm.lm (pos lsn)
  ok (record t' { bm = record t'.bm { fm = fm; lm = lm } })

-- `commit` of the recovery manager.
unfoldable pub commit_log : Transaction → Result Transaction
commit_log t = do t' ← flush_own t; write_and_flush t' (commit t.tx_num)

-- `_lm.iterator()`.
unfoldable pub open_iterator : Transaction → Result (Transaction × LogIterator)
open_iterator t = do
  (fm, lm, it) ← iterator t.bm.fm t.bm.lm
  ok (record t { bm = record t.bm { fm = fm; lm = lm } }, it)

-- `createLogRecord(it.next())`; the record is looked into at once, and so a null pointer is a fault.
unfoldable pub next_record :
    Transaction → LogIterator → Result (Transaction × LogIterator × LogRecord)
next_record t it = do
  (fm, it', bytes) ← next t.bm.fm it
  found ← create_log_record bytes
  r ← of_option found fault
  ok (record t { bm = record t.bm { fm = fm } }, it', r)

abbrev pub is_listed : ℤ → List ℤ → Bool
is_listed n [] = false
is_listed n (m ∷ ms) = let later = is_listed n ms in m == n || later

-- COMMIT or ROLLBACK.
abbrev pub is_end : LogRecord → Bool
is_end r = op r == pos 2 || op r == pos 3

module _ (env : Transaction → Waits) where
  -- `undo` of the two update records: the old value goes back, and this is not logged.
  unfoldable pub undo_int : BlockId → ℤ → ℤ → Transaction → Result Transaction
  undo_int blk offset val t = do
    t1 ← pin env t blk
    t2 ← set_int env t1 blk offset val false
    unpin t2 blk

  unfoldable pub undo_string : BlockId → ℤ → Str → Transaction → Result Transaction
  undo_string blk offset val t = do
    t1 ← pin env t blk
    t2 ← set_string env t1 blk offset val false
    unpin t2 blk

  -- `undo`: the other records do nothing.
  unfoldable pub undo : LogRecord → Transaction → Result Transaction
  unfolding undo_int undo_string
  undo checkpoint t = ok t
  undo (start tx) t = ok t
  undo (commit tx) t = ok t
  undo (rollback tx) t = ok t
  undo (set_int_record tx blk offset val) t = undo_int blk offset val t
  undo (set_string_record tx blk offset val) t = undo_string blk offset val t

  -- The body of the loop of `doRollback`; `none` is the return at the start of the transaction.
  unfoldable pub rollback_step : LogRecord → Transaction → Result (Transaction × Bool)
  rollback_step r t =
      if tx_number r == t.tx_num
      then if op r == pos 1 then ok (t, false) else (undo r t >>= λ t'. ok (t', true))
      else ok (t, true)

  unfoldable pub do_rollback : ℕ → Transaction → LogIterator → Result Transaction
  do_rollback zero t it = err starved
  do_rollback (suc fuel) t it = elim (has_next t.bm.fm it) [
    | false ↦ ok t
    | true ↦ do
      (t1, it', r) ← next_record t it
      (t2, more) ← rollback_step r t1
      elim more [ false ↦ ok t2 | true ↦ do_rollback fuel t2 it' ]
  ]

  -- The body of the loop of `doRecover`, below the look for a checkpoint.
  unfoldable pub recover_step : List ℤ → LogRecord → Transaction → Result (Transaction × List ℤ)
  recover_step done r t =
      if is_end r
      then ok (t, tx_number r ∷ done)
      else if is_listed (tx_number r) done
      then ok (t, done)
      else (undo r t >>= λ t'. ok (t', done))

  unfoldable pub do_recover : ℕ → List ℤ → Transaction → LogIterator → Result Transaction
  do_recover zero done t it = err starved
  do_recover (suc fuel) done t it = elim (has_next t.bm.fm it) [
    | false ↦ ok t
    | true ↦ do
      (t1, it', r) ← next_record t it
      elim (op r == pos 0) [
        | true ↦ ok t1
        | false ↦ do (t2, done') ← recover_step done r t1; do_recover fuel done' t2 it'
      ]
  ]

  -- `rollback` and `recover` of the recovery manager.
  unfoldable pub rollback_log : ℕ → Transaction → Result Transaction
  rollback_log fuel t = do
    (t1, it) ← open_iterator t
    t2 ← do_rollback fuel t1 it
    t3 ← flush_own t2
    write_and_flush t3 (rollback t.tx_num)

  unfoldable pub recover_log : ℕ → Transaction → Result Transaction
  recover_log fuel t = do
    (t1, it) ← open_iterator t
    t2 ← do_recover fuel [] t1 it
    t3 ← flush_own t2
    write_and_flush t3 checkpoint
