-- ===== src/Examples/Recovery.antt =====
-- A transaction that has changed an integer of a block, on a log with its start and its update.
use sample_db.Base.{
  ◌≡◌, refl, List, [], ◌∷◌, ◌++◌, ℕ, ℤ, codes, pos, negsuc, ok, ◌>>=◌, Succeeds, arith, replicate,
  find, put, str_beq, true, false, ◌+ℤ◌, splice,
}
use sample_db.File.BlockId.{BlockId}
use sample_db.File.Page.{Page, new_page, get_int, get_bytes, read_run}
use sample_db.File.Page
use sample_db.File.Page.Words.{decode_int, le_value, of_word, encode_int, to_word}
use sample_db.File.FileMgr.{FileMgr, get_file}
use sample_db.File.FileMgr
use sample_db.File.FileMgr.Blocks.{file_bytes}
use sample_db.Logging.{LogMgr, iterator, flush_page, move_to_block}
use sample_db.Logging.Append.{Logs}
use sample_db.Buffer.Frame.{Buffer, set_modified}
use sample_db.Buffer.Pool.{BufferMgr, try_to_pin, pin_found, pin_at, first_index}
use sample_db.Buffer.Pool
use sample_db.Tx.ConcurrencyMgr.{exclusive, x_lock}
use sample_db.Tx.BufferList.{unpin_found, is_there, erase_first, get_buffer}
use sample_db.Tx.BufferList
use sample_db.Tx.LogRecord.{
  LogRecord, start, checkpoint, set_int_record, rollback, set_int_bytes, write_header,
  create_log_record, log_bytes, read_record, read_set_int, read_header,
}
use sample_db.Tx.Transaction.{Transaction, Waits, locked, frame_of, put_int, take_x_lock}
use sample_db.Tx.Transaction
use sample_db.Tx.RecoveryMgr.{
  open_iterator, undo, undo_int, rollback_log, recover_log, flush_own, write_and_flush,
}
use sample_db.Tx.RecoveryMgr.Loops.{own_records, unfinished_records, undo_all, Decode}
use sample_db.Tx.RecoveryMgr.Whole.{Undoes, rollback_log-Logs, recover_log-Logs}
use sample_db.Tx.Transaction.Lookup.{Sees, set_int-logged}
use sample_db.Tx.RecoveryMgr.Undo.{InPool, set_int-undo}
use sample_db.Record.Schema.{empty_schema}
use sample_db.Record.RecordPage.{RecordPage, search_after, insert_after}
use sample_db.Record.RecordPage.Search.{FirstFrom, search_after-FirstFrom}
use sample_db.Record.RecordPage.Insert.{Filled, insert_after-Filled}

abbrev pub data_block : BlockId
data_block = record { file_name = codes "d"; number = pos 0 }

abbrev zeros : ℕ → List ℕ
zeros n = replicate n 0

-- The bytes of the two records.
abbrev start_bytes : List ℕ
start_bytes = 1 ∷ 0 ∷ 0 ∷ 0 ∷ 7 ∷ 0 ∷ 0 ∷ 0 ∷ []

abbrev update_bytes : List ℕ
update_bytes =
    4 ∷ 0 ∷ 0 ∷ 0 ∷ 7 ∷ 0 ∷ 0 ∷ 0 ∷ 1 ∷ 0 ∷ 0 ∷ 0 ∷ 100 ∷ 0 ∷ 0 ∷ 0 ∷ 0 ∷ 8 ∷ 0 ∷ 0 ∷ 0 ∷ 5 ∷ 0 ∷ 0
    ∷ 0 ∷ []

-- An update record with the OLD value 6.
abbrev six_bytes : List ℕ
six_bytes =
    4 ∷ 0 ∷ 0 ∷ 0 ∷ 7 ∷ 0 ∷ 0 ∷ 0 ∷ 1 ∷ 0 ∷ 0 ∷ 0 ∷ 100 ∷ 0 ∷ 0 ∷ 0 ∷ 0 ∷ 8 ∷ 0 ∷ 0 ∷ 0 ∷ 6 ∷ 0 ∷ 0
    ∷ 0 ∷ []

abbrev log_page : Page
log_page = record {
  bytes =
      (23 ∷ 0 ∷ 0 ∷ 0 ∷ zeros 19)
      ++ (25 ∷ 0 ∷ 0 ∷ 0 ∷ update_bytes)
      ++ (8 ∷ 0 ∷ 0 ∷ 0 ∷ start_bytes);
}

abbrev disk : FileMgr
disk = record {
  files = (codes "wal", log_page.bytes) ∷ (codes "d", zeros 64) ∷ [];
  is_new = false;
  block_size = 64;
}

abbrev log_mgr : LogMgr
log_mgr = record {
  log_file_name = codes "wal";
  log_page = log_page;
  curr_blk = record { file_name = codes "wal"; number = pos 0 };
  latest_lsn = 2;
  last_save_lsn = 0;
}

-- The block in the pool: the integer at 8 was 5 and is 6.
abbrev pub data_page : Page
data_page = record { bytes = zeros 8 ++ (6 ∷ zeros 55) }

abbrev frame : Buffer
frame = record { page = data_page; blk = data_block; pins = pos 1; txnum = pos 7; lsn = pos 2 }

abbrev bm : BufferMgr
bm = record { fm = disk; lm = log_mgr; pool = frame ∷ []; num_available = pos 0 }

abbrev pub transaction : Transaction
transaction = record {
  tx_num = pos 7;
  bm = bm;
  cm = record { locks = (data_block, exclusive) ∷ []; table = (data_block, negsuc 0) ∷ [] };
  buffers = record { buffers = (data_block, 0) ∷ []; pinned = data_block ∷ [] };
  finished = false;
}

-- Nothing is waited for.
abbrev pub at_once : Transaction → Waits
at_once t = record {
  for_buffer = record { elapsed = 0; others = λ m. m } ∷ [];
  for_shared = record { elapsed = 0; others = λ c. c } ∷ [];
  for_exclusive = record { elapsed = 0; others = λ c. c } ∷ [];
}

log_mgr-Logs : Logs disk log_mgr (update_bytes ∷ start_bytes ∷ [])
unfolding file_bytes find str_beq get_int decode_int le_value of_word get_bytes read_run
log_mgr-Logs = record {
  cur = update_bytes ∷ start_bytes ∷ [];
  olds = [];
  is_log = record {
    blk = refl;
    file = refl;
    page = record {
      boundary = 23;
      size = refl;
      header = refl;
      room = omega arith;
      packed = (refl, omega arith, (refl, omega arith, refl));
    };
    older = tt;
  };
  all = refl;
}

abbrev update : LogRecord
update = set_int_record (pos 7) data_block (pos 8) (pos 5)

abbrev records : List LogRecord
records = update ∷ start (pos 7) ∷ []

decoded : Decode (update_bytes ∷ start_bytes ∷ []) records
unfolding create_log_record read_record read_set_int read_header get_int decode_int le_value of_word
    get_bytes read_run Page.get_string
decoded = (refl, (refl, tt))

all_undone : Undoes at_once (own_records (pos 7) records) transaction
unfolding own_records open_iterator iterator flush_page FileMgr.write get_file find put str_beq
    move_to_block FileMgr.read splice new_page get_int decode_int le_value of_word undo undo_int
    Transaction.pin BufferList.pin Pool.pin try_to_pin pin_found pin_at first_index ◌+ℤ◌
    Transaction.set_int take_x_lock locked x_lock frame_of get_buffer put_int Page.set_int
    encode_int to_word set_modified Transaction.unpin unpin_found Pool.unpin is_there erase_first
    file_bytes
all_undone = ((refl, refl), refl, tt)

rollback_log-Logs_example : rollback_log at_once 3 transaction ≡ (do
  (t1, it) ← open_iterator transaction
  t2 ← undo_all at_once (own_records (pos 7) records) t1
  t3 ← flush_own t2
  write_and_flush t3 (rollback (pos 7)))
rollback_log-Logs_example =
    rollback_log-Logs at_once 3 transaction (update_bytes ∷ start_bytes ∷ []) records log_mgr-Logs
      decoded all_undone (omega arith)

unfinished_undone : Undoes at_once (unfinished_records [] records) transaction
unfolding unfinished_records open_iterator iterator flush_page FileMgr.write get_file find put
    str_beq move_to_block FileMgr.read splice new_page get_int decode_int le_value of_word undo
    undo_int Transaction.pin BufferList.pin Pool.pin try_to_pin pin_found pin_at first_index ◌+ℤ◌
    Transaction.set_int take_x_lock locked x_lock frame_of get_buffer put_int Page.set_int
    encode_int to_word set_modified Transaction.unpin unpin_found Pool.unpin is_there erase_first
    file_bytes
unfinished_undone = ((refl, refl), refl, ((refl, refl), refl, tt))

recover_log-Logs_example : recover_log at_once 3 transaction ≡ (do
  (t1, it) ← open_iterator transaction
  t2 ← undo_all at_once (unfinished_records [] records) t1
  t3 ← flush_own t2
  write_and_flush t3 checkpoint)
recover_log-Logs_example =
    recover_log-Logs at_once 3 transaction (update_bytes ∷ start_bytes ∷ []) records log_mgr-Logs
      decoded unfinished_undone (omega arith)

pub data_block-Sees : Sees transaction data_block data_page
unfolding find str_beq
data_block-Sees = record {
  index = 0;
  frame = frame;
  mine = refl;
  listed = refl;
  there = refl;
  assigned = refl;
  page = refl;
}

data_block-InPool : InPool transaction data_block data_page
unfolding find str_beq first_index is_there
data_block-InPool = record { sees = data_block-Sees; found = refl; pinned = refl }

six : Page.get_int data_page 8 ≡ ok (pos 6)
unfolding get_int decode_int le_value of_word
six = refl

set_int-undo_example :
    Succeeds
      (λ (x : Transaction × ℤ).
        (x.1 ≡ pos 6)
        × ((bytes : List ℕ) × (log_bytes (set_int_record (pos 7) data_block (pos 8) (pos 6))
              ≡ ok bytes)
            × Logs x.0.bm.fm x.0.bm.lm (bytes ∷ update_bytes ∷ start_bytes ∷ [])))
      (do
        t1 ← Transaction.set_int at_once transaction data_block (pos 8) (pos 9) true
        t2 ← undo at_once (set_int_record (pos 7) data_block (pos 8) (pos 6)) t1
        Transaction.get_int at_once t2 data_block (pos 8))
set_int-undo_example =
    set_int-undo at_once transaction data_block data_page 8 (pos 9) (pos 6)
      (update_bytes ∷ start_bytes ∷ []) (record { elapsed = 0; others = λ m. m }) []
      data_block-InPool log_mgr-Logs (omega arith, omega arith) six (omega arith) (omega arith)
      (omega arith) (λ t'. refl)

-- The page after 9 was written.
abbrev nine_page : Page
nine_page = record { bytes = zeros 8 ++ (9 ∷ zeros 55) }

nine_written : Page.set_int data_page 8 (pos 9) ≡ ok nine_page
unfolding Page.set_int encode_int to_word splice
nine_written = refl

logged_bytes : log_bytes (set_int_record (pos 7) data_block (pos 8) (pos 6)) ≡ ok six_bytes
unfolding log_bytes set_int_bytes write_header Page.set_int Page.set_string Page.set_bytes
    encode_int to_word splice new_page
logged_bytes = refl

set_int-logged_example :
    Succeeds
      (λ (t' : Transaction).
        Sees t' data_block nine_page
        × Logs t'.bm.fm t'.bm.lm (six_bytes ∷ update_bytes ∷ start_bytes ∷ []))
      (Transaction.set_int at_once transaction data_block (pos 8) (pos 9) true)
set_int-logged_example =
    set_int-logged at_once transaction data_block data_page nine_page 8 (pos 9) (pos 6) six_bytes
      (update_bytes ∷ start_bytes ∷ []) data_block-Sees log_mgr-Logs (omega arith, omega arith) six
      logged_bytes (omega arith) nine_written

-- Slots of eight bytes in the block.
abbrev slots : RecordPage
slots = record {
  blk = data_block;
  layout = record { schema = empty_schema; offsets = []; slot_size = 8 };
}

search_after-FirstFrom_example :
    Succeeds
      (λ (x : Transaction × ℤ). (x.0 ≡ transaction) × FirstFrom data_page 8 (pos 0) 1 x.1)
      (search_after at_once 66 transaction slots (pos 1 +ℤ negsuc 0) (pos 0))
search_after-FirstFrom_example =
    search_after-FirstFrom at_once 65 transaction slots data_page 1 (pos 0) data_block-Sees refl
      (omega arith) (omega arith)

insert_after-Filled_example :
    Succeeds
      (Filled transaction slots data_page (update_bytes ∷ start_bytes ∷ []) 1)
      (insert_after at_once 66 transaction slots (pos 1 +ℤ negsuc 0))
insert_after-Filled_example =
    insert_after-Filled at_once 65 transaction slots data_page (update_bytes ∷ start_bytes ∷ []) 1
      data_block-Sees refl (omega arith) log_mgr-Logs (omega arith, omega arith) (omega arith)
      (omega arith)
