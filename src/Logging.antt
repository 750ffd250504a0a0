-- ===== src/Logging.antt =====
-- logging/: the log manager, which packs records into blocks from their end down, and its iterator.
pub mod Records
pub mod State
pub mod Room
pub mod Append
pub mod Position
pub mod Iterate
pub mod Ahead
pub mod History
use sample_db.Base.{
  ℕ, zero, suc, ◌+◌, ◌-◌, List, [], ◌∷◌, Bool, true, false, not, ◌||◌, Str, ℤ, pos, negsuc, sub_ℕ,
  ◌+ℤ◌, int_lt, Result, ok, err, fault, starved, ◌>>=◌, ◌>>◌, length, nat_beq, ltb, if◌then◌else◌,
  ◌==◌, int_eq, nat_eq,
}
use sample_db.File.BlockId.{BlockId}
use sample_db.File.Page.{Page, new_page, get_int, set_int, get_bytes, set_bytes}
use sample_db.File.FileMgr.{FileMgr, file_length}
use sample_db.File.FileMgr

pub record LogMgr : Type 0 where
  pub log_file_name : Str
  pub log_page : Page
  pub curr_blk : BlockId
  pub latest_lsn : ℕ
  pub last_save_lsn : ℕ

-- A negative position is outside of the page.
abbrev pub to_offset : ℤ → Result ℕ
to_offset (pos n) = ok n
to_offset (negsuc n) = err fault

-- a - b on integers.
abbrev minus : ℤ → ℕ → ℤ
minus (pos a) b = sub_ℕ a b
minus (negsuc a) b = negsuc (a + b)

unfoldable pub append_new_block : FileMgr → LogMgr → Result (FileMgr × LogMgr)
append_new_block fm lm = do
  let (fm', blk) = FileMgr.append fm lm.log_file_name
  page ← set_int lm.log_page 0 (pos fm'.block_size)
  fm'' ← FileMgr.write fm' blk page
  ok (fm'', record lm { log_page = page; curr_blk = blk })

-- The private `flush()`.
unfoldable pub flush_page : FileMgr → LogMgr → Result (FileMgr × LogMgr)
flush_page fm lm = do
  fm' ← FileMgr.write fm lm.curr_blk lm.log_page
  ok (fm', record lm { last_save_lsn = lm.latest_lsn })

-- `flush(lsn)`: what has been saved already is not saved again.
unfoldable pub flush : FileMgr → LogMgr → ℤ → Result (FileMgr × LogMgr)
flush fm lm lsn = if int_lt lsn (pos lm.last_save_lsn) then ok (fm, lm) else flush_page fm lm

-- The fields before the log page is read, for block `n`.
abbrev pub fresh_log : FileMgr → Str → ℕ → LogMgr
fresh_log fm name n = record {
  log_file_name = name;
  log_page = new_page fm.block_size;
  curr_blk = record { file_name = name; number = pos n };
  latest_lsn = 0;
  last_save_lsn = 0;
}

-- The last block of a log that is there becomes the log page.
unfoldable pub reopen_log : FileMgr → LogMgr → Result (FileMgr × LogMgr)
reopen_log fm lm = do
  (fm', page) ← FileMgr.read fm lm.curr_blk lm.log_page
  ok (fm', record lm { log_page = page })

-- The constructor.
unfoldable pub open_log : FileMgr → Str → Result (FileMgr × LogMgr)
open_log fm name =
    if file_length fm name == 0
    then append_new_block fm (fresh_log fm name 0)
    else reopen_log fm (fresh_log fm name (file_length fm name - 1))

-- The log page is saved, and a new block follows.
unfoldable pub renew_block : FileMgr → LogMgr → Result (FileMgr × LogMgr × ℤ)
renew_block fm lm = do
  (fm', lm') ← flush_page fm lm
  (fm'', lm'') ← append_new_block fm' lm'
  boundary' ← get_int lm''.log_page 0
  ok (fm'', lm'', boundary')

-- A record that does not fit above the boundary goes to a new block.
unfoldable pub make_room : FileMgr → LogMgr → ℤ → ℕ → Result (FileMgr × LogMgr × ℤ)
make_room fm lm boundary bytes_needed =
    if int_lt (minus boundary bytes_needed) (pos 4)
    then renew_block fm lm
    else ok (fm, lm, boundary)

-- `append`: the record goes under the boundary, and its LSN comes back.
unfoldable pub append : FileMgr → LogMgr → List ℕ → Result (FileMgr × LogMgr × ℕ)
append fm lm log_rec = do
  boundary ← get_int lm.log_page 0
  (fm', lm', boundary') ← make_room fm lm boundary (length log_rec + 4)
  rec_pos ← to_offset (minus boundary' (length log_rec + 4))
  page ← set_bytes lm'.log_page rec_pos log_rec
  page' ← set_int page 0 (pos rec_pos)
  ok (fm', record lm' { log_page = page'; latest_lsn = suc lm'.latest_lsn }, suc lm'.latest_lsn)

pub record LogIterator : Type 0 where
  pub page : Page
  pub blk : BlockId
  pub curr_pos : ℤ
  pub boundary : ℤ

unfoldable pub move_to_block : FileMgr → LogIterator → BlockId → Result (FileMgr × LogIterator)
move_to_block fm it blk = do
  (fm', page) ← FileMgr.read fm blk it.page
  boundary ← get_int page 0
  ok (fm', record { page = page; blk = blk; curr_pos = boundary; boundary = boundary })

-- The iterator before its first block is read.
abbrev pub new_iterator : FileMgr → BlockId → LogIterator
new_iterator fm blk = record {
  page = new_page fm.block_size;
  blk = blk;
  curr_pos = pos 0;
  boundary = pos 0;
}

-- `iterator()`: the log page is saved first.
unfoldable pub iterator : FileMgr → LogMgr → Result (FileMgr × LogMgr × LogIterator)
iterator fm lm = do
  (fm', lm') ← flush_page fm lm
  (fm'', it) ← move_to_block fm' (new_iterator fm' lm'.curr_blk) lm'.curr_blk
  ok (fm'', lm', it)

unfoldable pub has_next : FileMgr → LogIterator → Bool
has_next fm it = int_lt it.curr_pos (pos fm.block_size) || int_lt (pos 0) it.blk.number

-- At the end of a block the iterator goes to the block before it.
unfoldable pub previous_block : FileMgr → LogIterator → Result (FileMgr × LogIterator)
previous_block fm it =
    if it.curr_pos == pos fm.block_size
    then move_to_block fm it (record it.blk { number = it.blk.number +ℤ negsuc 0 })
    else ok (fm, it)

unfoldable pub next : FileMgr → LogIterator → Result (FileMgr × LogIterator × List ℕ)
next fm it = do
  (fm', it') ← previous_block fm it
  at ← to_offset it'.curr_pos
  log_rec ← get_bytes it'.page at
  ok (fm', record it' { curr_pos = pos (at + 4 + length log_rec) }, log_rec)

-- `while (it.hasNext()) it.next()`, with fuel: every record that the iterator gives.
unfoldable pub drain : ℕ → FileMgr → LogIterator → Result (List (List ℕ))
drain zero fm it = err starved
drain (suc fuel) fm it = elim (has_next fm it) [
  | false ↦ ok []
  | true ↦ do (fm', it', log_rec) ← next fm it; rest ← drain fuel fm' it'; ok (log_rec ∷ rest)
]
