-- ===== src/Logging/Room.antt =====
-- Making room for a record: in the block of the log page, or in a new one.
use mathlib.Core.Path.{subst}
use native.Mathlib.Decide.{dec_le}
use sample_db.Base.{
  ℕ, suc, ◌+◌, ◌-◌, ◌≤◌, ◌<◌, ◌≡◌, refl, sym, ◌∙◌, List, [], ◌∷◌, true, false, ℤ, pos, int_lt, ok,
  Succeeds, length, arith,
}
use sample_db.File.Page.Words.{half_mod}
use sample_db.File.FileMgr.{FileMgr}
use sample_db.File.FileMgr.Blocks.{stored, block_bytes-stored_self, block_bytes-stored_ne}
use sample_db.File.FileMgr.Whole.{HasBlocks, HasBlock-HasBlocks, stored-HasBlocks}
use sample_db.Logging.{LogMgr, to_offset, minus, make_room, renew_block}
use sample_db.Logging.Records.{PageHolds}
use sample_db.Logging.State.{
  Olds, IsLog, records_of, Olds-same, with_block, empty_page, flush_page-eq, append_new_block-eq,
  with_block-IsLog,
}

-- A block whose size a 32-bit `int` holds, and that has room for the boundary.
abbrev pub SizeIsRight : FileMgr → Type 0
SizeIsRight fm = (4 ≤ fm.block_size) × (fm.block_size < half_mod)

-- Below the boundary there is room for the length and the record, or there is not.
pub room_below :
    (b len : ℕ)
    → len + 8 ≤ b
    → (int_lt (minus (pos b) (len + 4)) (pos 4) ≡ false)
      × (to_offset (minus (pos b) (len + 4)) ≡ ok (b - (len + 4)))
room_below b len h = (ground arith, ground arith)

pub no_room_below : (b len : ℕ) → b < len + 8 → int_lt (minus (pos b) (len + 4)) (pos 4) ≡ true
no_room_below b len h = ground arith

-- What `make_room` leaves: the same records, and room for one of `len` bytes under the boundary.
pub record Room (len size lsn : ℕ) (rs : List (List ℕ)) (x : FileMgr × LogMgr × ℤ) : Type 0 where
  pub cur : List (List ℕ)
  pub olds : List (List (List ℕ))
  pub is_log : IsLog x.0 x.1 cur olds
  pub at : x.2 ≡ pos is_log.page.boundary
  pub enough : len + 8 ≤ is_log.page.boundary
  pub all : records_of (cur ∷ olds) ≡ rs
  pub same_lsn : x.1.latest_lsn ≡ lsn
  pub same_size : x.0.block_size ≡ size

-- When the page goes to its block, the full blocks stay.
pub Olds-stored :
    (fm : FileMgr) (lm : LogMgr) (cur : List (List ℕ)) (olds : List (List (List ℕ)))
    → IsLog fm lm cur olds
    → Olds (stored fm lm.log_file_name (length olds) lm.log_page) lm.log_file_name olds
Olds-stored fm lm cur olds h =
    Olds-same fm (stored fm lm.log_file_name (length olds) lm.log_page) lm.log_file_name olds refl
      (λ n lt.
        (block_bytes-stored_ne fm lm.log_file_name lm.log_file_name (length olds) n lm.log_page
          h.page.size
          (HasBlock-HasBlocks fm lm.log_file_name n (suc (length olds)) h.file (omega arith))
          (λ e. absurd (omega (arith, e.1)))).0)
      h.older

-- The page of the log in its block, the block counts as a full one.
pub full_block :
    (fm : FileMgr) (lm : LogMgr) (cur : List (List ℕ)) (olds : List (List (List ℕ)))
    → IsLog fm lm cur olds
    → 0 < length cur
    → Olds (stored fm lm.log_file_name (length olds) lm.log_page) lm.log_file_name (cur ∷ olds)
full_block fm lm cur olds h some = (
  subst (λ b. PageHolds fm.block_size (record { bytes = b }) cur)
      (sym (block_bytes-stored_self fm lm.log_file_name (length olds) lm.log_page h.page.size))
      h.page,
  some,
  Olds-stored fm lm cur olds h,
)

pub renew_block-Room :
    (fm : FileMgr) (lm : LogMgr) (cur : List (List ℕ)) (olds : List (List (List ℕ))) (len : ℕ)
    → IsLog fm lm cur olds
    → SizeIsRight fm
    → 0 < length cur
    → len + 8 ≤ fm.block_size
    → Succeeds (Room len fm.block_size lm.latest_lsn (records_of (cur ∷ olds))) (renew_block fm lm)
unfolding renew_block
renew_block-Room fm lm cur olds len h s some fits =
    rw
      (
        flush_page-eq fm lm (length olds) h.blk h.page.size,
        append_new_block-eq fm1 lm1 (suc (length olds)) s.0 file h.page.size,
        next.page.header,
      )
      (record {
        cur = [];
        olds = cur ∷ olds;
        is_log = next;
        at = refl;
        enough = omega (arith, fits, full);
        all = refl;
        same_lsn = refl;
        same_size = refl;
      })
  where
    fm1 : FileMgr
    fm1 = stored fm lm.log_file_name (length olds) lm.log_page

    lm1 : LogMgr
    lm1 = record lm { last_save_lsn = lm.latest_lsn }

    file : HasBlocks fm1 lm.log_file_name (suc (length olds))
    file =
        stored-HasBlocks fm lm.log_file_name (length olds) (suc (length olds)) lm.log_page
          h.page.size h.file (omega arith)

    next :
        IsLog
          (with_block fm1 lm.log_file_name (suc (length olds)) lm.log_page)
          (record lm1 {
            log_page = empty_page fm1 lm.log_page;
            curr_blk = record { file_name = lm.log_file_name; number = pos (suc (length olds)) };
          })
          []
          (cur ∷ olds)
    next =
        with_block-IsLog fm1 lm1 (cur ∷ olds) s.0 s.1 file h.page.size
          (full_block fm lm cur olds h some)

    full : next.page.boundary ≡ fm.block_size
    full = next.page.packed ∙ next.page.size

pub make_room-Room :
    (fm : FileMgr) (lm : LogMgr) (cur : List (List ℕ)) (olds : List (List (List ℕ))) (len : ℕ)
    → (h : IsLog fm lm cur olds) → SizeIsRight fm
    → len + 8 ≤ fm.block_size
    → Succeeds
        (Room len fm.block_size lm.latest_lsn (records_of (cur ∷ olds)))
        (make_room fm lm (pos h.page.boundary) (len + 4))
unfolding make_room
make_room-Room fm lm cur olds len h s fits = elim (dec_le (len + 8) h.page.boundary) [
  | yes le ↦ rw (room_below h.page.boundary len le).0 (record {
    cur = cur;
    olds = olds;
    is_log = h;
    at = refl;
    enough = le;
    all = refl;
    same_lsn = refl;
    same_size = refl;
  })
  | no gt ↦
      rw (no_room_below h.page.boundary len (omega arith))
        (renew_block-Room fm lm cur olds len h s (some_record cur h.page (omega arith)) fits)
]
  where
    some_record :
        (cs : List (List ℕ))
        → (p : PageHolds fm.block_size lm.log_page cs) → p.boundary < fm.block_size
        → 0 < length cs
    some_record [] p lt = absurd (omega (arith, p.packed ∙ p.size))
    some_record (c ∷ cs) p lt = omega arith
