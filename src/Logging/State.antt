-- ===== src/Logging/State.antt =====
-- The state of a log that is open: what its page and its blocks hold.
use mathlib.Core.Path.{subst}
use sample_db.Base.{
  ℕ, suc, ◌+◌, ◌≤◌, ◌<◌, ◌≡◌, refl, sym, ◌∙◌, List, [], ◌∷◌, ◌++◌, Str, pos, ok, length,
  length-splice, arith,
}
use sample_db.File.BlockId.{BlockId}
use sample_db.File.Page.{Page}
use sample_db.File.Page.Words.{encode_int, half_mod}
use sample_db.File.Page.RoundTrip.{overwrite, set_int-fits}
use sample_db.File.FileMgr.{FileMgr}
use sample_db.File.FileMgr.Blocks.{FitsBlock, block_bytes, stored, write-eq, block_bytes-stored_ne}
use sample_db.File.FileMgr.Whole.{
  HasBlocks, appended, append-eq, append-HasBlocks, append-block_bytes, stored-HasBlocks,
  HasBlock-HasBlocks,
}
use sample_db.Logging.{LogMgr, append_new_block, flush_page}
use sample_db.Logging.Records.{PageHolds, header_of}

-- The full blocks, the last one first: block `n` of the file stands in front of `n` others.
abbrev pub Olds : FileMgr → Str → List (List (List ℕ)) → Type 0
Olds fm name [] = Unit {0}
Olds fm name (rs ∷ more) =
    PageHolds fm.block_size (record { bytes = block_bytes fm name (length more) }) rs
    × (0 < length rs)
    × Olds fm name more

-- All records, the newest first.
abbrev pub records_of : List (List (List ℕ)) → List (List ℕ)
records_of [] = []
records_of (rs ∷ more) = rs ++ records_of more

pub record IsLog (fm : FileMgr) (lm : LogMgr) (cur : List (List ℕ)) (olds : List (List (List ℕ)))
    : Type 0 where
  pub blk : lm.curr_blk ≡ record { file_name = lm.log_file_name; number = pos (length olds) }
  pub file : HasBlocks fm lm.log_file_name (suc (length olds))
  pub page : PageHolds fm.block_size lm.log_page cur
  pub older : Olds fm lm.log_file_name olds

pub Olds-same :
    (fm fm' : FileMgr) (name : Str) (olds : List (List (List ℕ)))
    → fm'.block_size ≡ fm.block_size
    → ((n : ℕ) → n < length olds → block_bytes fm' name n ≡ block_bytes fm name n)
    → Olds fm name olds
    → Olds fm' name olds
Olds-same fm fm' name [] s h o = tt
Olds-same fm fm' name (rs ∷ more) s h o = (
  subst (λ k. PageHolds k (record { bytes = block_bytes fm' name (length more) }) rs) (sym s)
      (subst (λ b. PageHolds fm.block_size (record { bytes = b }) rs)
        (sym (h (length more) (omega arith))) o.0),
  o.1,
  Olds-same fm fm' name more s (λ n lt. h n (omega arith)) o.2,
)

-- The page of a new block.
abbrev pub empty_page : FileMgr → Page → Page
empty_page fm p = overwrite p 0 (encode_int (pos fm.block_size))

abbrev pub with_block : FileMgr → Str → ℕ → Page → FileMgr
with_block fm name k p = stored (appended fm name k) name k (empty_page fm p)

empty_page-fits : (fm : FileMgr) (p : Page) → FitsBlock fm p → FitsBlock fm (empty_page fm p)
empty_page-fits fm p h = length-splice p.bytes 0 (encode_int (pos fm.block_size)) ∙ h

appended-HasBlocks :
    (fm : FileMgr) (name : Str) (k : ℕ)
    → 0 < fm.block_size
    → HasBlocks fm name k
    → HasBlocks (appended fm name k) name (suc k)
appended-HasBlocks fm name k s b =
    let h : HasBlocks (appended fm name k) name (k + 1) =
      subst (λ (x : FileMgr × BlockId). HasBlocks x.0 name (k + 1)) (append-eq fm name k s b)
        (append-HasBlocks fm name k s b).1 in
    omega (arith, h)

pub flush_page-eq :
    (fm : FileMgr) (lm : LogMgr) (k : ℕ)
    → lm.curr_blk ≡ record { file_name = lm.log_file_name; number = pos k }
    → FitsBlock fm lm.log_page
    → flush_page fm lm
      ≡ ok (stored fm lm.log_file_name k lm.log_page, record lm { last_save_lsn = lm.latest_lsn })
unfolding flush_page
flush_page-eq fm lm k b h = rw (b, write-eq fm lm.log_file_name k lm.log_page h) refl

pub append_new_block-eq :
    (fm : FileMgr) (lm : LogMgr) (k : ℕ)
    → 4 ≤ fm.block_size
    → HasBlocks fm lm.log_file_name k
    → FitsBlock fm lm.log_page
    → append_new_block fm lm
      ≡ ok (
        with_block fm lm.log_file_name k lm.log_page,
        record lm {
          log_page = empty_page fm lm.log_page;
          curr_blk = record { file_name = lm.log_file_name; number = pos k };
        },
      )
unfolding append_new_block
append_new_block-eq fm lm k s b h =
    rw
      (
        append-eq fm lm.log_file_name k (omega arith) b,
        set_int-fits lm.log_page 0 (pos fm.block_size) (rw h (omega arith)),
        write-eq (appended fm lm.log_file_name k) lm.log_file_name k (empty_page fm lm.log_page)
            (empty_page-fits fm lm.log_page h),
      )
      refl

with_block-same :
    (fm : FileMgr) (name : Str) (k n : ℕ) (p : Page)
    → 0 < fm.block_size
    → HasBlocks fm name k
    → FitsBlock fm p
    → n < k
    → block_bytes (with_block fm name k p) name n ≡ block_bytes fm name n
with_block-same fm name k n p s b h lt =
    (block_bytes-stored_ne fm' name name k n (empty_page fm p) (empty_page-fits fm p h)
      (HasBlock-HasBlocks fm' name n (suc k) (appended-HasBlocks fm name k s b) (omega arith))
      (λ e. absurd (omega (arith, e.1)))).0
    ∙ subst (λ (x : FileMgr × BlockId). block_bytes x.0 name n ≡ block_bytes fm name n)
        (append-eq fm name k s b) (append-block_bytes fm name k n s b lt)
  where
    fm' : FileMgr
    fm' = appended fm name k

-- A new block under full ones: the log goes on in it with no record.
pub with_block-IsLog :
    (fm : FileMgr) (lm : LogMgr) (olds : List (List (List ℕ)))
    → 4 ≤ fm.block_size
    → fm.block_size < half_mod
    → HasBlocks fm lm.log_file_name (length olds)
    → FitsBlock fm lm.log_page
    → Olds fm lm.log_file_name olds
    → IsLog
        (with_block fm lm.log_file_name (length olds) lm.log_page)
        (record lm {
          log_page = empty_page fm lm.log_page;
          curr_blk = record { file_name = lm.log_file_name; number = pos (length olds) };
        })
        []
        olds
with_block-IsLog fm lm olds s lt b h o = record {
  blk = refl;
  file =
      stored-HasBlocks (appended fm lm.log_file_name (length olds)) lm.log_file_name (length olds)
        (suc (length olds)) (empty_page fm lm.log_page) (empty_page-fits fm lm.log_page h)
        (appended-HasBlocks fm lm.log_file_name (length olds) (omega arith) b) (omega arith);
  page = record {
    boundary = fm.block_size;
    size = empty_page-fits fm lm.log_page h;
    header = header_of lm.log_page fm.block_size (rw h s) lt;
    room = s;
    packed = sym (empty_page-fits fm lm.log_page h);
  };
  older =
      Olds-same fm (with_block fm lm.log_file_name (length olds) lm.log_page) lm.log_file_name olds
        refl
        (λ n lt'.
          with_block-same fm lm.log_file_name (length olds) n lm.log_page (omega arith) b h lt')
        o;
}
