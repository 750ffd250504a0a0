-- ===== src/Examples/Pools.antt =====
-- A pool of two buffers, and a transaction that pins them.
use mathlib.Core.Bool.{true≢false}
use sample_db.Base.{
  sym, eq_iff, str_eq, ◌≡◌, refl, List, [], ◌∷◌, codes, pos, negsuc, ok, Succeeds, arith, set, find,
  str_beq,
}
use sample_db.File.BlockId.{BlockId}
use sample_db.Logging.{LogMgr}
use sample_db.Tx.BufferList.{BufferList, erase_first, is_there, unpin_found}
use sample_db.Tx.BufferList
use sample_db.Tx.BufferList.Tracks.{Tracks, unpin-Tracks}
use sample_db.Buffer.Pool.{WakeUp}
use sample_db.Buffer.Frame.{pin_buffer}
use sample_db.Base.{◌+ℤ◌}
use sample_db.Buffer.Frame.{Buffer, unpin_buffer}
use sample_db.Buffer.Pool.{BufferMgr, try_to_pin, unpin, flush_all}
use sample_db.Buffer.Pool.Frames.{unpinned}
use sample_db.Buffer.Pool.Invariant.{PoolIsValid, Tried, try_to_pin-Succeeds}
use sample_db.Buffer.Pool.Release.{unpin-Succeeds}
use sample_db.Buffer.Pool.Saved.{OutsideLog, AllAfter, flush_all-Saves}
use sample_db.Examples.Storage.{log_name, page_of, with_file}

-- A pool of two frames on this disk: one pinned and modified, one free.
abbrev log_mgr : LogMgr
log_mgr = record {
  log_file_name = codes "wal";
  log_page = page_of 0;
  curr_blk = record { file_name = codes "wal"; number = pos 0 };
  latest_lsn = 1;
  last_save_lsn = 0;
}

abbrev used_frame : Buffer
used_frame = record {
  page = page_of 1;
  blk = record { file_name = log_name; number = pos 0 };
  pins = pos 1;
  txnum = pos 3;
  lsn = pos 1;
}

abbrev free_frame : Buffer
free_frame = record {
  page = page_of 0;
  blk = record { file_name = []; number = negsuc 0 };
  pins = pos 0;
  txnum = negsuc 0;
  lsn = negsuc 0;
}

abbrev two_frames : BufferMgr
two_frames = record {
  fm = with_file;
  lm = log_mgr;
  pool = used_frame ∷ free_frame ∷ [];
  num_available = pos 1;
}

two_frames-PoolIsValid : PoolIsValid two_frames
unfolding unpinned str_beq
two_frames-PoolIsValid = record {
  log = record { fits = refl; natural = refl };
  frames = (
    record { fits = refl; natural = λ e. refl; pinned = refl },
    (record { fits = refl; natural = λ e. cc; pinned = refl }, tt),
  );
  available = refl;
  distinct = ((λ e. (refl, tt)), ((λ e. tt), tt));
}

abbrev block_1 : BlockId
block_1 = record { file_name = log_name; number = pos 1 }

try_to_pin-Succeeds_example : Succeeds (Tried two_frames block_1) (try_to_pin two_frames block_1)
try_to_pin-Succeeds_example = try_to_pin-Succeeds two_frames block_1 two_frames-PoolIsValid refl

unpin-Succeeds_example :
    Succeeds
      (λ m'. PoolIsValid m' × (m'.pool ≡ set two_frames.pool 0 (unpin_buffer used_frame)))
      (unpin two_frames 0)
unpin-Succeeds_example = unpin-Succeeds two_frames 0 used_frame two_frames-PoolIsValid refl refl

two_frames-OutsideLog : OutsideLog log_mgr two_frames.pool
unfolding str_beq
two_frames-OutsideLog = (
  (λ e. true≢false (sym ((eq_iff log_name (codes "wal")).1 e))),
  ((λ e. true≢false (sym ((eq_iff [] (codes "wal")).1 e))), tt),
)

flush_all-Saves_example :
    Succeeds
      (λ m'. PoolIsValid m' × AllAfter log_mgr (pos 3) m'.fm two_frames.pool m'.pool)
      (flush_all two_frames (pos 3))
flush_all-Saves_example =
    flush_all-Saves two_frames (pos 3) two_frames-PoolIsValid refl two_frames-OutsideLog

-- A transaction that has pinned the block of the used frame twice.
abbrev block_0 : BlockId
block_0 = record { file_name = log_name; number = pos 0 }

abbrev twice : BufferList
twice = record { buffers = (block_0, 0) ∷ []; pinned = block_0 ∷ block_0 ∷ [] }

twice-Tracks : Tracks twice
unfolding find is_there
twice-Tracks b = ground arith

abbrev unpinned_once : BufferMgr
unpinned_once = record two_frames {
  pool = unpin_buffer used_frame ∷ free_frame ∷ [];
  num_available = pos 2;
}

abbrev once : BufferList
once = record { buffers = (block_0, 0) ∷ []; pinned = block_0 ∷ [] }

unpin-once : BufferList.unpin two_frames twice block_0 ≡ ok (unpinned_once, once)
unfolding unpin_found unpin find erase_first is_there str_beq ◌+ℤ◌
unpin-once = refl

unpin-Tracks_example : Tracks once
unpin-Tracks_example =
    unpin-Tracks two_frames unpinned_once twice once block_0 twice-Tracks unpin-once

abbrev now : List WakeUp
now = record { elapsed = 0; others = λ m. m } ∷ []

abbrev pinned_again : BufferMgr
pinned_again = record two_frames { pool = pin_buffer used_frame ∷ free_frame ∷ [] }

abbrev thrice : BufferList
thrice = record { buffers = (block_0, 0) ∷ []; pinned = block_0 ∷ block_0 ∷ block_0 ∷ [] }
