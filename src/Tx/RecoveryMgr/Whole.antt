-- ===== src/Tx/RecoveryMgr/Whole.antt =====
-- Rollback and recovery from the log to the disk.
use mathlib.Core.Path.{subst}
use sample_db.Base.{
  ℕ, ◌<◌, ◌≡◌, refl, sym, ap, List, [], ◌∷◌, ◌++◌, Bool, true, false, ℤ, pos, int_eq, ◌==◌, ◌>>=◌,
  Succeeds, Succeeds-eq, Succeeds-ok, eq_self, ◌&&◌, length, if◌then◌else◌, arith,
}
use sample_db.File.FileMgr.{FileMgr}
use sample_db.Logging.{LogMgr, LogIterator, iterator}
use sample_db.Logging.Append.{Logs}
use sample_db.Logging.Ahead.{Ahead, iterator-Ahead}
use sample_db.Tx.LogRecord.{LogRecord, checkpoint, start, rollback, op, tx_number}
use sample_db.Tx.Transaction.{Transaction, Waits}
use sample_db.Tx.RecoveryMgr.{open_iterator, flush_own, write_and_flush, rollback_log, recover_log}
use sample_db.Tx.RecoveryMgr.Loops.{
  own_records, unfinished_records, undo_all, Decode, KeepsLog, do_rollback-Ahead, do_recover-Ahead,
}

-- After the log was saved for the iterator, each undo of a record leaves the file of the log.
abbrev pub Undoes : (Transaction → Waits) → List LogRecord → Transaction → Type 0
Undoes env rs t =
    Succeeds (λ (x : Transaction × LogIterator). KeepsLog env t.bm.lm.log_file_name rs x.0)
      (open_iterator t)

module _ (env : Transaction → Waits) where
  abbrev Opened : Transaction → List (List ℕ) → Transaction × LogIterator → Type 0
  Opened t bs x = Ahead x.0.bm.fm t.bm.lm.log_file_name x.1 bs × (x.0.tx_num ≡ t.tx_num)

  open_iterator-Opened :
      (t : Transaction) (bs : List (List ℕ))
      → Logs t.bm.fm t.bm.lm bs
      → Succeeds (Opened t bs) (open_iterator t)
  unfolding open_iterator
  open_iterator-Opened t bs h =
      let (x, e, g) =
        Succeeds-eq (λ (x : FileMgr × LogMgr × LogIterator). Ahead x.0 t.bm.lm.log_file_name x.2 bs)
          (iterator t.bm.fm t.bm.lm) (iterator-Ahead t.bm.fm t.bm.lm bs h) in
      rw e (g, refl)

  -- A rollback on a log that holds records: the log is saved, the updates of the transaction down
  -- to its start are undone, the newest first, its buffers are flushed, and a ROLLBACK record is
  -- written and flushed. The records decode, each undo leaves the file of the log, and there is
  -- fuel for each record and one more.
  pub rollback_log-Logs :
      (fuel : ℕ) (t : Transaction) (bs : List (List ℕ)) (rs : List LogRecord)
      → Logs t.bm.fm t.bm.lm bs
      → Decode bs rs
      → Undoes env (own_records t.tx_num rs) t
      → length bs < fuel
      → rollback_log env fuel t ≡ (do
        (t1, it) ← open_iterator t
        t2 ← undo_all env (own_records t.tx_num rs) t1
        t3 ← flush_own t2
        write_and_flush t3 (rollback t.tx_num))
  unfolding rollback_log
  rollback_log-Logs fuel t bs rs h d k lt =
      let (x, e, (ahead, number)) =
        Succeeds-eq (Opened t bs) (open_iterator t) (open_iterator-Opened t bs h) in
      let keeps : KeepsLog env t.bm.lm.log_file_name (own_records x.0.tx_num rs) x.0 =
        subst (λ n. KeepsLog env t.bm.lm.log_file_name (own_records n rs) x.0) (sym number)
          (Succeeds-ok _ (open_iterator t) x e k) in
      rw
        (
          e,
          do_rollback-Ahead env fuel x.0 t.bm.lm.log_file_name x.1 bs rs ahead d keeps lt,
          ap (λ n. own_records n rs) number,
        )
        refl

  -- Recovery on a log that holds records: the log is saved, the updates down to the last checkpoint
  -- whose transaction has no end after them are undone, the newest first, the buffers of this
  -- transaction are flushed, and a checkpoint is written and flushed. The records decode, each undo
  -- leaves the file of the log, and there is fuel for each record and one more.
  pub recover_log-Logs :
      (fuel : ℕ) (t : Transaction) (bs : List (List ℕ)) (rs : List LogRecord)
      → Logs t.bm.fm t.bm.lm bs
      → Decode bs rs
      → Undoes env (unfinished_records [] rs) t
      → length bs < fuel
      → recover_log env fuel t ≡ (do
        (t1, it) ← open_iterator t
        t2 ← undo_all env (unfinished_records [] rs) t1
        t3 ← flush_own t2
        write_and_flush t3 checkpoint)
  unfolding recover_log
  recover_log-Logs fuel t bs rs h d k lt =
      let (x, e, (ahead, number)) =
        Succeeds-eq (Opened t bs) (open_iterator t) (open_iterator-Opened t bs h) in
      rw
        (
          e,
          do_recover-Ahead env fuel [] x.0 t.bm.lm.log_file_name x.1 bs rs ahead d
              (Succeeds-ok _ (open_iterator t) x e k) lt,
        )
        refl

unfoldable pub no_start : ℤ → List LogRecord → Bool
no_start n [] = true
no_start n (r ∷ rs) = if op r == pos 1 && tx_number r == n then false else no_start n rs

-- The records of one transaction.
abbrev pub of_tx : ℤ → List LogRecord → List LogRecord
of_tx n [] = []
of_tx n (r ∷ rs) = let more = of_tx n rs in if tx_number r == n then r ∷ more else more

-- What a rollback undoes is all that the transaction logged after its start, in the order from the
-- newest, whatever other transactions logged between; what lies before the start is not looked at.
pub own_records-start :
    (n : ℤ) (rs older : List LogRecord)
    → no_start n rs ≡ true
    → own_records n (rs ++ start n ∷ older) ≡ of_tx n rs
unfolding own_records no_start
own_records-start n [] older h = ground (arith, eq_self n)
own_records-start n (r ∷ rs) older h = ground (arith, own_records-start n rs older)
