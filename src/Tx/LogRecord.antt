-- ===== src/Tx/LogRecord.antt =====
-- tx/LogRecord/: the six kinds of log records, as the bytes that `writeToLog` appends and as what
-- `createLogRecord` reads. An update record holds the OLD value.
pub mod Header
pub mod RoundTrip
pub mod Strings
use sample_db.Base.{
  ℕ, ◌+◌, List, ◌∷◌, Bool, Option, none, some, Str, ℤ, pos, negsuc, Result, ok, err, ◌>>=◌, length,
  if◌then◌else◌, ◌==◌, int_eq,
}
use sample_db.File.BlockId.{BlockId}
use sample_db.File.Page.{
  Page, new_page, get_int, set_int, get_string, set_string, max_length, size_of_int,
}

pub data LogRecord : Type 0 where
  checkpoint : LogRecord
  start : ℤ → LogRecord
  commit : ℤ → LogRecord
  rollback : ℤ → LogRecord
  set_int_record : ℤ → BlockId → ℤ → ℤ → LogRecord
  set_string_record : ℤ → BlockId → ℤ → Str → LogRecord

-- `op()`: CHECKPOINT, START, COMMIT, ROLLBACK, SETINT, SETSTRING.
abbrev pub op : LogRecord → ℤ
op checkpoint = pos 0
op (start tx) = pos 1
op (commit tx) = pos 2
op (rollback tx) = pos 3
op (set_int_record tx blk offset val) = pos 4
op (set_string_record tx blk offset val) = pos 5

-- `txNumber()`, -1 for a checkpoint.
abbrev pub tx_number : LogRecord → ℤ
tx_number checkpoint = negsuc 0
tx_number (start tx) = tx
tx_number (commit tx) = tx
tx_number (rollback tx) = tx
tx_number (set_int_record tx blk offset val) = tx
tx_number (set_string_record tx blk offset val) = tx

-- `CheckpointRecord::writeToLog`.
unfoldable pub checkpoint_bytes : Result (List ℕ)
checkpoint_bytes = do p ← set_int (new_page size_of_int) 0 (pos 0); ok p.bytes

-- `writeToLog` of the three records that hold only a transaction number.
unfoldable pub tx_bytes : ℤ → ℤ → Result (List ℕ)
tx_bytes code tx_num = do
  p ← set_int (new_page (size_of_int + size_of_int)) 0 code
  q ← set_int p size_of_int tx_num
  ok q.bytes

-- Where the block number, the offset and the value of an update record stand.
abbrev pub fpos : ℕ
fpos = size_of_int + size_of_int

abbrev pub bpos : Str → ℕ
bpos name = fpos + max_length (length name)

abbrev pub opos : Str → ℕ
opos name = bpos name + size_of_int

-- The fields before the value: they are the same in both update records.
unfoldable pub write_header : ℕ → ℤ → ℤ → BlockId → ℤ → Result Page
write_header rec_size code tx_num blk offset = do
  p ← set_int (new_page rec_size) 0 code
  q ← set_int p size_of_int tx_num
  r ← set_string q fpos blk.file_name
  s ← set_int r (bpos blk.file_name) blk.number
  set_int s (opos blk.file_name) offset

-- `SetIntRecord::writeToLog`.
unfoldable pub set_int_bytes : ℤ → BlockId → ℤ → ℤ → Result (List ℕ)
set_int_bytes tx_num blk offset val = do
  let vpos = opos blk.file_name + size_of_int
  p ← write_header (vpos + size_of_int) (pos 4) tx_num blk offset
  q ← set_int p vpos val
  ok q.bytes

-- `SetStringRecord::writeToLog`: the value goes to `opos + maxLength(str.size())`.
unfoldable pub set_string_bytes : ℤ → BlockId → ℤ → Str → Result (List ℕ)
set_string_bytes tx_num blk offset str = do
  let vpos = opos blk.file_name + max_length (length str)
  p ← write_header (vpos + max_length (length str)) (pos 5) tx_num blk offset
  q ← set_string p vpos str
  ok q.bytes

-- The bytes that a record's `writeToLog` appends.
unfoldable pub log_bytes : LogRecord → Result (List ℕ)
log_bytes checkpoint = checkpoint_bytes
log_bytes (start tx) = tx_bytes (pos 1) tx
log_bytes (commit tx) = tx_bytes (pos 2) tx
log_bytes (rollback tx) = tx_bytes (pos 3) tx
log_bytes (set_int_record tx blk offset val) = set_int_bytes tx blk offset val
log_bytes (set_string_record tx blk offset val) = set_string_bytes tx blk offset val

-- The constructors that read only the transaction number.
abbrev read_tx : (ℤ → LogRecord) → Page → Result (Option LogRecord)
read_tx make p = do tx_num ← get_int p size_of_int; ok (some (make tx_num))

-- The fields before the value, as both update records read them.
unfoldable pub read_header : Page → Result (ℤ × BlockId × ℤ)
read_header p = do
  tx_num ← get_int p size_of_int
  file_name ← get_string p fpos
  blk_num ← get_int p (bpos file_name)
  offset ← get_int p (opos file_name)
  ok (tx_num, record { file_name = file_name; number = blk_num }, offset)

-- Both read the value at `opos + sizeof(int)`.
unfoldable pub read_set_int : Page → Result (Option LogRecord)
read_set_int p = do
  (tx_num, blk, offset) ← read_header p
  val ← get_int p (opos blk.file_name + size_of_int)
  ok (some (set_int_record tx_num blk offset val))

unfoldable pub read_set_string : Page → Result (Option LogRecord)
read_set_string p = do
  (tx_num, blk, offset) ← read_header p
  val ← get_string p (opos blk.file_name + size_of_int)
  ok (some (set_string_record tx_num blk offset val))

-- The `switch` on the operation's code; `none` is the null pointer.
unfoldable pub read_record : Page → ℤ → Result (Option LogRecord)
read_record p code =
    if code == pos 0
    then ok (some checkpoint)
    else if code == pos 1
    then read_tx start p
    else if code == pos 2
    then read_tx commit p
    else if code == pos 3
    then read_tx rollback p
    else if code == pos 4
    then read_set_int p
    else if code == pos 5
    then read_set_string p
    else ok none

unfoldable pub create_log_record : List ℕ → Result (Option LogRecord)
create_log_record bytes = do
  code ← get_int (record { bytes = bytes }) 0
  read_record (record { bytes = bytes }) code
