-- ===== src/Buffer/Frame.antt =====
-- buffer/Buffer.cpp: one frame of the pool.
pub mod Total
pub mod LogSaved
use sample_db.Base.{ℕ, Bool, ℤ, pos, negsuc, ◌+ℤ◌, int_lt, Result, ok, ◌>>=◌, if◌then◌else◌, []}
use sample_db.File.BlockId.{BlockId}
use sample_db.File.Page.{Page, new_page}
use sample_db.File.FileMgr.{FileMgr}
use sample_db.File.FileMgr
use sample_db.Logging.{LogMgr}
use sample_db.Logging

pub record Buffer : Type 0 where
  pub page : Page
  pub blk : BlockId
  pub pins : ℤ
  pub txnum : ℤ
  pub lsn : ℤ

-- The constructor: no block and no pins.
abbrev pub new_buffer : FileMgr → Buffer
new_buffer fm = record {
  page = new_page fm.block_size;
  blk = record { file_name = []; number = negsuc 0 };
  pins = pos 0;
  txnum = negsuc 0;
  lsn = negsuc 0;
}

-- `setModified`: a negative LSN leaves the last one.
unfoldable pub set_modified : Buffer → ℤ → ℤ → Buffer
set_modified b txnum lsn = record b {
  txnum = txnum;
  lsn = if int_lt lsn (pos 0) then b.lsn else lsn;
}

abbrev pub is_pinned : Buffer → Bool
is_pinned b = int_lt (pos 0) b.pins

-- `flush`: the log first, then the page (write-ahead logging).
unfoldable pub flush_buffer : FileMgr → LogMgr → Buffer → Result (FileMgr × LogMgr × Buffer)
unfolding FileMgr.write Logging.flush
flush_buffer fm lm b = if int_lt b.txnum (pos 0) then ok (fm, lm, b) else do
  (fm', lm') ← Logging.flush fm lm b.lsn
  fm'' ← FileMgr.write fm' b.blk b.page
  ok (fm'', lm', record b { txnum = negsuc 0 })

unfoldable pub assign_to_block :
    FileMgr → LogMgr → Buffer → BlockId → Result (FileMgr × LogMgr × Buffer)
unfolding flush_buffer FileMgr.read
assign_to_block fm lm b blk = do
  (fm', lm', b') ← flush_buffer fm lm b
  (fm'', page) ← FileMgr.read fm' blk b'.page
  ok (fm'', lm', record b' { page = page; blk = blk; pins = pos 0 })

abbrev pub pin_buffer : Buffer → Buffer
pin_buffer b = record b { pins = b.pins +ℤ pos 1 }

abbrev pub unpin_buffer : Buffer → Buffer
unpin_buffer b = record b { pins = b.pins +ℤ negsuc 0 }
