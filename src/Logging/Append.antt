-- ===== src/Logging/Append.antt =====
-- Appending to a log: the record is the newest one, whether or not a new block was needed.
use sample_db.Base.{
  ℕ, suc, ◌+◌, ◌-◌, ◌≤◌, ◌<◌, ◌≡◌, refl, ap, ◌∙◌, List, [], ◌∷◌, Str, ℤ, pos, ok, ◌>>=◌, Succeeds,
  Succeeds-bind, length, arith, length-replicate,
}
use sample_db.File.Page.{new_page, set_int, set_bytes}
use sample_db.File.Page.Words.{half_mod}
use sample_db.File.FileMgr.{FileMgr}
use sample_db.File.FileMgr.Blocks.{FitsBlock}
use sample_db.File.FileMgr.Whole.{HasBlocks, file_length_blocks}
use sample_db.Logging.{LogMgr, to_offset, minus, append, make_room, open_log, fresh_log}
use sample_db.Logging.Records.{Packed-le, pack-eq, pack-PageHolds}
use sample_db.Logging.State.{IsLog, records_of, append_new_block-eq, with_block-IsLog}
use sample_db.Logging.Room.{SizeIsRight, room_below, Room, make_room-Room}

-- The log holds these records, the newest first.
pub record Logs (fm : FileMgr) (lm : LogMgr) (rs : List (List ℕ)) : Type 0 where
  pub cur : List (List ℕ)
  pub olds : List (List (List ℕ))
  pub is_log : IsLog fm lm cur olds
  pub all : records_of (cur ∷ olds) ≡ rs

put_under-Logs :
    (x : FileMgr × LogMgr × ℤ) (size lsn : ℕ) (rs : List (List ℕ)) (r : List ℕ)
    {older : List (List ℕ)}
    → Room (length r) size lsn older x
    → older ≡ rs
    → size < half_mod
    → Succeeds
        (λ (y : FileMgr × LogMgr × ℕ).
          Logs y.0 y.1 (r ∷ rs)
          × (y.2 ≡ suc lsn)
          × (y.1.latest_lsn ≡ suc lsn)
          × (y.0.block_size ≡ size))
        (do
          rec_pos ← to_offset (minus x.2 (length r + 4))
          page ← set_bytes x.1.log_page rec_pos r
          page' ← set_int page 0 (pos rec_pos)
          ok (
            x.0,
            record x.1 { log_page = page'; latest_lsn = suc x.1.latest_lsn },
            suc x.1.latest_lsn,
          ))
put_under-Logs x size lsn rs r room e lt =
    rw
      (
        room.at,
        (room_below b (length r) room.enough).1,
        (pack-eq x.1.log_page off r fits).0,
        (pack-eq x.1.log_page off r fits).1,
      )
      (
        record {
          cur = r ∷ room.cur;
          olds = room.olds;
          is_log = record {
            blk = room.is_log.blk;
            file = room.is_log.file;
            page =
                pack-PageHolds x.0.block_size x.1.log_page room.cur off r room.is_log.page
                  (omega (arith, room.enough)) (omega (arith, room.enough)) (rw room.same_size lt);
            older = room.is_log.older;
          };
          all = ap (◌∷◌ r) (room.all ∙ e);
        },
        ap suc room.same_lsn,
        ap suc room.same_lsn,
        room.same_size,
      )
  where
    b : ℕ
    b = room.is_log.page.boundary

    off : ℕ
    off = b - (length r + 4)

    fits : off + 4 + length r ≤ length x.1.log_page.bytes
    fits = omega (arith, room.enough, Packed-le x.1.log_page b room.cur room.is_log.page.packed)

-- A record that fits a block with its length and the boundary is appended: the log then holds it
-- in front of the records that it held, the next LSN comes back, and the size of a block stays.
pub append-Logs :
    (fm : FileMgr) (lm : LogMgr) (rs : List (List ℕ)) (r : List ℕ)
    → Logs fm lm rs
    → SizeIsRight fm
    → length r + 8 ≤ fm.block_size
    → Succeeds
        (λ (x : FileMgr × LogMgr × ℕ).
          Logs x.0 x.1 (r ∷ rs)
          × (x.2 ≡ suc lm.latest_lsn)
          × (x.1.latest_lsn ≡ suc lm.latest_lsn)
          × (x.0.block_size ≡ fm.block_size))
        (append fm lm r)
unfolding append
append-Logs fm lm rs r h s fits = rw (h.is_log.page.header) (
    Succeeds-bind (Room (length r) fm.block_size lm.latest_lsn (records_of (h.cur ∷ h.olds))) _
      (make_room fm lm (pos h.is_log.page.boundary) (length r + 4)) _
      (make_room-Room fm lm h.cur h.olds (length r) h.is_log s fits)
      (λ x room. put_under-Logs x fm.block_size lm.latest_lsn rs r room h.all s.1))

-- The log that is opened on a name that has no file holds no record.
pub open_log-Logs :
    (fm : FileMgr) (name : Str)
    → HasBlocks fm name 0
    → SizeIsRight fm
    → Succeeds
        (λ (x : FileMgr × LogMgr).
          Logs x.0 x.1 [] × (x.1.latest_lsn ≡ 0) × (x.0.block_size ≡ fm.block_size))
        (open_log fm name)
unfolding open_log
open_log-Logs fm name h s =
    rw
      (
        file_length_blocks fm name 0 (omega arith) h,
        append_new_block-eq fm (fresh_log fm name 0) 0 s.0 h blank,
      )
      (
        record {
          cur = [];
          olds = [];
          is_log = with_block-IsLog fm (fresh_log fm name 0) [] s.0 s.1 h blank tt;
          all = refl;
        },
        refl,
        refl,
      )
  where
    blank : FitsBlock fm (new_page fm.block_size)
    blank = unfold new_page in length-replicate fm.block_size 0
