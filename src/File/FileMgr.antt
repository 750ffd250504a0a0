-- ===== src/File/FileMgr.antt =====
-- file/FileMgr.cpp: whole blocks of named files. The directory is a map from names to bytes; the
-- table of open streams is left out. A negative block number is a fault: no caller passes one.
mod Disk
pub mod Blocks
pub mod Whole
pub mod Total
pub mod OnDisk
use sample_db.Base.{
  ℕ, ◌+◌, ◌-◌, ◌*◌, ◌/◌, List, [], Bool, true, false, Option, none, some, Str, ℤ, pos, negsuc,
  Result, ok, err, fault, guard, ◌>>=◌, ◌>>◌, length, slice, splice, replicate, take, leb, ltb,
  if◌then◌else◌, find, put, str_eq, ◌==◌, codes,
}
use sample_db.File.BlockId.{BlockId}
use sample_db.File.Page.{Page}
use Disk.{file_write, drop_temporary}

pub record FileMgr : Type 0 where
  pub block_size : ℕ
  pub is_new : Bool
  pub files : List (Str × List ℕ)

-- The constructor: `none` is a directory that does not exist. Leftover temporary tables go.
unfoldable pub open_database : Option (List (Str × List ℕ)) → ℕ → FileMgr
open_database none n = record { block_size = n; is_new = true; files = [] }
open_database (some found) n = record {
  block_size = n;
  is_new = false;
  files = drop_temporary found;
}

abbrev pub contents_of : Option (List ℕ) → List ℕ
contents_of none = []
contents_of (some bytes) = bytes

-- `getFile`: a file that is missing is made.
unfoldable pub get_file : FileMgr → Str → FileMgr × List ℕ
unfolding find put
get_file fm name =
    let bytes = contents_of (find name fm.files) in
    (record fm { files = put name bytes fm.files }, bytes)

-- `blk.number() * _blocksize`.
abbrev pub block_offset : FileMgr → ℤ → Result ℕ
block_offset fm (pos n) = ok (n * fm.block_size)
block_offset fm (negsuc n) = err fault

-- The first `_blocksize` bytes of the page are written.
unfoldable pub write : FileMgr → BlockId → Page → Result FileMgr
unfolding get_file file_write put
write fm blk p = do
  offset ← block_offset fm blk.number
  guard (leb fm.block_size (length p.bytes)) fault
  let (fm', bytes) = get_file fm blk.file_name
  ok (record fm' {
    files = put blk.file_name (file_write bytes offset (take fm.block_size p.bytes)) fm'.files;
  })

-- The number of whole blocks, 0 for a file that is missing.
unfoldable pub file_length : FileMgr → Str → ℕ
unfolding find
file_length fm name = length (contents_of (find name fm.files)) / fm.block_size

unfoldable pub append : FileMgr → Str → FileMgr × BlockId
unfolding get_file file_write put file_length
append fm name =
    let (fm', bytes) = get_file fm name in
    let n = file_length fm' name in
    let zeros : List ℕ = replicate fm.block_size 0 in
    (
      record fm' { files = put name (file_write bytes (n * fm.block_size) zeros) fm'.files },
      record { file_name = name; number = pos n },
    )

-- Where fewer bytes are there than a block has, the buffer is cleared from its START on.
abbrev pub filled : ℕ → List ℕ → List ℕ → List ℕ
filled n got buffer =
    if ltb (length got) n
    then splice (splice buffer 0 got) 0 (replicate (n - length got) 0)
    else splice buffer 0 got

unfoldable pub read : FileMgr → BlockId → Page → Result (FileMgr × Page)
unfolding get_file splice
read fm blk p = do
  offset ← block_offset fm blk.number
  guard (leb fm.block_size (length p.bytes)) fault
  let (fm', bytes) = get_file fm blk.file_name
  ok (fm', record { bytes = filled fm.block_size (slice offset fm.block_size bytes) p.bytes })
