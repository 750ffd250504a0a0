-- ===== src/Tx/Transaction.antt =====
-- tx/Transaction.cpp: what a transaction does with blocks, and the parts of tx/RecoveryMgr.cpp that
-- write to the log. The managers that all transactions share are part of the state. What others do
-- while a call waits is a parameter, which may depend on the state.
pub mod Lookup
use sample_db.Base.{
  ℕ, List, Bool, true, false, Str, ℤ, pos, negsuc, Result, ok, fault, ◌>>=◌, of_option, get_elem?,
  set, if◌then◌else◌,
}
use sample_db.File.BlockId.{BlockId}
use sample_db.File.Page.{Page}
use sample_db.File.Page
use sample_db.File.FileMgr.{FileMgr, file_length}
use sample_db.File.FileMgr
use sample_db.Logging.{append, to_offset}
use sample_db.Buffer.Frame.{Buffer, set_modified}
use sample_db.Buffer.Pool.{BufferMgr}
use sample_db.Buffer.Pool
use sample_db.Tx.LockTable
use sample_db.Tx.ConcurrencyMgr.{ConcurrencyMgr, s_lock, x_lock}
use sample_db.Tx.LogRecord.{LogRecord, set_int_record, set_string_record, log_bytes}
use sample_db.Tx.BufferList.{BufferList, get_buffer}
use sample_db.Tx.BufferList

pub record Transaction : Type 0 where
  pub tx_num : ℤ
  pub bm : BufferMgr
  pub cm : ConcurrencyMgr
  pub buffers : BufferList
  pub finished : Bool

-- The wake-ups of a call that waits: for a buffer, for a shared lock and for an exclusive one.
pub record Waits : Type 0 where
  pub for_buffer : List Pool.WakeUp
  pub for_shared : List LockTable.WakeUp
  pub for_exclusive : List LockTable.WakeUp

-- `writeToLog` of a record: the LSN comes back.
unfoldable pub write_to_log : Transaction → LogRecord → Result (Transaction × ℕ)
write_to_log t r = do
  bytes ← log_bytes r
  (fm, lm, lsn) ← append t.bm.fm t.bm.lm bytes
  ok (record t { bm = record t.bm { fm = fm; lm = lm } }, lsn)

-- After a lock was asked for: the call ends if that threw.
unfoldable pub locked : Transaction → Result (Unit {0}) × ConcurrencyMgr → Result Transaction
locked t (r, c) = do done ← r; ok (record t { cm = c })

-- The index of a block's frame and the frame.
unfoldable pub frame_of : Transaction → BlockId → Result (ℕ × Buffer)
frame_of t blk = do
  i ← get_buffer t.buffers blk
  b ← of_option (get_elem? t.bm.pool i) fault
  ok (i, b)

-- The frame at an index after its page was changed and `setModified` was called.
abbrev pub modified : Transaction → ℕ → Buffer → Page → ℤ → Transaction
modified t i b page lsn = record t {
  bm = record t.bm {
    pool = set t.bm.pool i (set_modified (record b { page = page }) t.tx_num lsn);
  };
}

-- The `setInt` of the recovery manager: the OLD value goes to the log, and its LSN comes back.
unfoldable pub log_int : Transaction → Buffer → ℤ → Result (Transaction × ℤ)
log_int t b offset = do
  at ← to_offset offset
  old_val ← Page.get_int b.page at
  (t', lsn) ← write_to_log t (set_int_record t.tx_num b.blk offset old_val)
  ok (t', pos lsn)

-- The `setString` of the recovery manager.
unfoldable pub log_string : Transaction → Buffer → ℤ → Result (Transaction × ℤ)
log_string t b offset = do
  at ← to_offset offset
  old_val ← Page.get_string b.page at
  (t', lsn) ← write_to_log t (set_string_record t.tx_num b.blk offset old_val)
  ok (t', pos lsn)

-- What `setInt` and `setString` do with a frame, after `okToLog` was looked at.
unfoldable pub put_int : ℤ → ℤ → ℕ → Buffer → Transaction × ℤ → Result Transaction
put_int offset val i b (t, lsn) = do
  at ← to_offset offset
  page ← Page.set_int b.page at val
  ok (modified t i b page lsn)

unfoldable pub put_string : ℤ → Str → ℕ → Buffer → Transaction × ℤ → Result Transaction
put_string offset val i b (t, lsn) = do
  at ← to_offset offset
  page ← Page.set_string b.page at val
  ok (modified t i b page lsn)

-- `END_OF_FILE`: the block that stands for the length of a file in the lock table.
abbrev pub end_of_file : Str → BlockId
end_of_file name = record { file_name = name; number = negsuc 0 }

module _ (env : Transaction → Waits) where
  unfoldable pub pin : Transaction → BlockId → Result Transaction
  pin t blk = do
    (bm, l) ← BufferList.pin (env t).for_buffer t.bm t.buffers blk
    ok (record t { bm = bm; buffers = l })

  -- A shared lock on a block, and an exclusive one.
  unfoldable pub take_s_lock : Transaction → BlockId → Result Transaction
  take_s_lock t blk = locked t (s_lock (env t).for_shared blk t.cm)

  unfoldable pub take_x_lock : Transaction → BlockId → Result Transaction
  take_x_lock t blk = locked t (x_lock (env t).for_shared (env t).for_exclusive blk t.cm)

  unfoldable pub get_int : Transaction → BlockId → ℤ → Result (Transaction × ℤ)
  get_int t blk offset = do
    t' ← take_s_lock t blk
    (i, b) ← frame_of t' blk
    at ← to_offset offset
    val ← Page.get_int b.page at
    ok (t', val)

  unfoldable pub get_string : Transaction → BlockId → ℤ → Result (Transaction × Str)
  get_string t blk offset = do
    t' ← take_s_lock t blk
    (i, b) ← frame_of t' blk
    at ← to_offset offset
    val ← Page.get_string b.page at
    ok (t', val)

  -- Without logging the LSN is -1.
  unfoldable pub set_int : Transaction → BlockId → ℤ → ℤ → Bool → Result Transaction
  set_int t blk offset val ok_to_log = do
    t' ← take_x_lock t blk
    (i, b) ← frame_of t' blk
    logged ← if ok_to_log then log_int t' b offset else ok (t', negsuc 0)
    put_int offset val i b logged

  unfoldable pub set_string : Transaction → BlockId → ℤ → Str → Bool → Result Transaction
  set_string t blk offset val ok_to_log = do
    t' ← take_x_lock t blk
    (i, b) ← frame_of t' blk
    logged ← if ok_to_log then log_string t' b offset else ok (t', negsuc 0)
    put_string offset val i b logged

  -- `size`: the number of blocks of a file, under a shared lock of its end.
  unfoldable pub size : Transaction → Str → Result (Transaction × ℕ)
  size t name = do t' ← take_s_lock t (end_of_file name); ok (t', file_length t'.bm.fm name)

  unfoldable pub append_block : Transaction → Str → Result (Transaction × BlockId)
  append_block t name = do
    t' ← take_x_lock t (end_of_file name)
    let (fm, blk) = FileMgr.append t'.bm.fm name
    ok (record t' { bm = record t'.bm { fm = fm } }, blk)

unfoldable pub unpin : Transaction → BlockId → Result Transaction
unpin t blk = do
  (bm, l) ← BufferList.unpin t.bm t.buffers blk
  ok (record t { bm = bm; buffers = l })

abbrev pub block_size : Transaction → ℕ
block_size t = t.bm.fm.block_size

abbrev pub available_buffers : Transaction → ℤ
available_buffers t = t.bm.num_available
