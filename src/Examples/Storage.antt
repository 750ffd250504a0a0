-- ===== src/Examples/Storage.antt =====
-- A database with blocks of 16 bytes, and one with blocks of 64 bytes.
use sample_db.Base.{
  ℕ, ◌≡◌, refl, List, [], ◌∷◌, Str, codes, true, pos, negsuc, ok, ◌>>=◌, arith, replicate, find,
  str_beq,
}
use sample_db.File.Page.{Page, get_int, set_int}
use sample_db.File.Page.Words.{decode_int, le_value, of_word}
use sample_db.File.Page.RoundTrip.{get_int-set_int}
use sample_db.File.FileMgr.{FileMgr, append, read, write}
use sample_db.File.FileMgr.Blocks.{HasBlock, block_bytes, file_bytes, read-write, read-write_ne}
use sample_db.File.FileMgr.Whole.{HasBlocks, append-HasBlocks}
use sample_db.Logging.{LogMgr, open_log, iterator, drain}
use sample_db.Logging.History.{append_all, iterator-append_all}
use sample_db.Logging.Append.{Logs}

abbrev small : FileMgr
small = record { files = []; is_new = true; block_size = 16 }

abbrev pub log_name : Str
log_name = codes "log"

abbrev three_records : List (List ℕ)
three_records = (7 ∷ 8 ∷ []) ∷ (9 ∷ []) ∷ (1 ∷ 2 ∷ 3 ∷ []) ∷ []

no_file : HasBlocks small log_name 0
unfolding file_bytes find
no_file = refl

iterator-append_all_example :
    (do
      (fm1, lm1) ← open_log small log_name
      (fm2, lm2) ← append_all fm1 lm1 three_records
      (fm3, lm3, it) ← iterator fm2 lm2
      drain 4 fm3 it)
    ≡ ok ((1 ∷ 2 ∷ 3 ∷ []) ∷ (9 ∷ []) ∷ (7 ∷ 8 ∷ []) ∷ [])
iterator-append_all_example =
    iterator-append_all small log_name three_records 4 no_file (omega arith, omega arith)
      (omega arith, (omega arith, (omega arith, tt))) (omega arith)

abbrev pub page_of : ℕ → Page
page_of n = record { bytes = replicate 16 n }

read-write_example :
    (do
      fm' ← write small (record { file_name = log_name; number = pos 2 }) (page_of 5)
      (fm'', r) ← read fm' (record { file_name = log_name; number = pos 2 }) (page_of 6)
      ok r)
    ≡ ok (page_of 5)
read-write_example = read-write small log_name 2 (page_of 5) (page_of 6) refl refl

-- A file of two blocks.
abbrev pub with_file : FileMgr
with_file = record { files = (log_name, replicate 32 4) ∷ []; is_new = true; block_size = 16 }

two_blocks : HasBlocks with_file log_name 2
unfolding file_bytes find str_beq
two_blocks = refl

block_one : HasBlock with_file log_name 1
unfolding file_bytes find str_beq
block_one = omega arith

read-write_ne_example :
    (do
      fm' ← write with_file (record { file_name = log_name; number = pos 0 }) (page_of 5)
      (fm'', r) ← read fm' (record { file_name = log_name; number = pos 1 }) (page_of 6)
      ok r)
    ≡ (do
      (fm'', r) ← read with_file (record { file_name = log_name; number = pos 1 }) (page_of 6)
      ok r)
read-write_ne_example =
    read-write_ne with_file log_name log_name 0 1 (page_of 5) (page_of 6) refl refl block_one
      other_block
  where
    other_block : (log_name ≡ log_name) × (◌≡◌ {A = ℕ} 0 1) → ⊥
    other_block e = omega (arith, e.1)

append-HasBlocks_example :
    ((append with_file log_name).1 ≡ record { file_name = log_name; number = pos 2 })
    × HasBlocks (append with_file log_name).0 log_name 3
    × (block_bytes (append with_file log_name).0 log_name 2 ≡ replicate 16 0)
append-HasBlocks_example = append-HasBlocks with_file log_name 2 (omega arith) two_blocks

get_int-set_int_example : (set_int (page_of 0) 4 (negsuc 6) >>= λ q. get_int q 4) ≡ ok (negsuc 6)
get_int-set_int_example = get_int-set_int (page_of 0) 4 (negsuc 6) (omega arith) (omega arith)

-- A log with one empty block.
abbrev log_page_16 : Page
log_page_16 = record { bytes = 16 ∷ replicate 15 0 }

abbrev one_block : FileMgr
one_block = record { files = (log_name, log_page_16.bytes) ∷ []; is_new = true; block_size = 16 }

abbrev empty_log : LogMgr
empty_log = record {
  log_file_name = log_name;
  log_page = log_page_16;
  curr_blk = record { file_name = log_name; number = pos 0 };
  latest_lsn = 0;
  last_save_lsn = 0;
}

empty_log-Logs : Logs one_block empty_log []
unfolding file_bytes find str_beq get_int decode_int le_value of_word
empty_log-Logs = record {
  cur = [];
  olds = [];
  is_log = record {
    blk = refl;
    file = refl;
    page = record { boundary = 16; size = refl; header = refl; room = omega arith; packed = refl };
    older = tt;
  };
  all = refl;
}
