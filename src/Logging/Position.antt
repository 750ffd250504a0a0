-- ===== src/Logging/Position.antt =====
-- The position of a log iterator: before records of its page, over full blocks.
use sample_db.Base.{
  ℕ, suc, ◌+◌, ◌*◌, ◌<◌, ◌≡◌, refl, ap, ◌∙◌, List, [], ◌∷◌, Str, str_eq, true, false, pos, negsuc,
  int_beq, int_eq, ◌==◌, ◌+ℤ◌, ok, ◌>>=◌, Succeeds, Succeeds-bind, length, arith, find, find-put,
  eq_self, take, drop,
}
use sample_db.File.Page.{get_bytes}
use sample_db.File.FileMgr.{FileMgr, contents_of}
use sample_db.File.FileMgr.Blocks.{FitsBlock, file_bytes, block_bytes, read-eq}
use sample_db.File.FileMgr.Whole.{HasBlocks, HasBlock-HasBlocks, opened}
use sample_db.Logging.{LogIterator, to_offset, move_to_block, previous_block, next}
use sample_db.Logging.Records.{PageHolds, Packed}
use sample_db.Logging.State.{Olds, Olds-same}

-- The iterator stands before records `rs` of its page, over the full blocks `olds`.
pub record IsAt (fm : FileMgr) (name : Str) (it : LogIterator) (rs : List (List ℕ))
    (olds : List (List (List ℕ))) : Type 0 where
  pub at : ℕ
  pub count : ℕ
  pub blk : it.blk ≡ record { file_name = name; number = pos (length olds) }
  pub curr : it.curr_pos ≡ pos at
  pub size : FitsBlock fm it.page
  pub packed : Packed it.page at rs
  pub file : HasBlocks fm name count
  pub inside : length olds < count
  pub older : Olds fm name olds

pub opened-same :
    (fm : FileMgr) (name : Str) → file_bytes (opened fm name) name ≡ file_bytes fm name
unfolding file_bytes
opened-same fm name =
    rw (find-put name name (contents_of (find name fm.files)) fm.files, eq_self name) refl

pub move_to_block-IsAt :
    (fm : FileMgr) (name : Str) (it : LogIterator) (rs : List (List ℕ))
    (olds : List (List (List ℕ))) (k : ℕ)
    → FitsBlock fm it.page
    → HasBlocks fm name k
    → length olds < k
    → PageHolds fm.block_size (record { bytes = block_bytes fm name (length olds) }) rs
    → Olds fm name olds
    → Succeeds
        (λ (x : FileMgr × LogIterator). IsAt x.0 name x.1 rs olds)
        (move_to_block fm it (record { file_name = name; number = pos (length olds) }))
unfolding move_to_block
move_to_block-IsAt fm name it rs olds k f h lt p o =
    rw
      (
        read-eq fm name (length olds) it.page f (HasBlock-HasBlocks fm name (length olds) k h lt),
        p.header,
      )
      (record {
        at = p.boundary;
        count = k;
        blk = refl;
        curr = refl;
        size = p.size;
        packed = p.packed;
        file = ap length (opened-same fm name) ∙ h;
        inside = lt;
        older =
            Olds-same fm (opened fm name) name olds refl
              (λ n lt.
                ap (λ bs. take fm.block_size (drop (n * fm.block_size) bs)) (opened-same fm name))
              o;
      })

-- In a page: the record at the position comes, and the position goes past it.
pub next-IsAt_here :
    (fm : FileMgr) (name : Str) (it : LogIterator) (r : List ℕ) (rs : List (List ℕ))
    (olds : List (List (List ℕ)))
    → IsAt fm name it (r ∷ rs) olds
    → Succeeds
        (λ (x : FileMgr × LogIterator × List ℕ). IsAt x.0 name x.1 rs olds × (x.2 ≡ r))
        (do
          at ← to_offset it.curr_pos
          log_rec ← get_bytes it.page at
          ok (fm, record it { curr_pos = pos (at + 4 + length log_rec) }, log_rec))
next-IsAt_here fm name it r rs olds h =
    rw (h.curr, h.packed.0)
      (
        record {
          at = h.at + 4 + length r;
          count = h.count;
          blk = h.blk;
          curr = refl;
          size = h.size;
          packed = h.packed.2;
          file = h.file;
          inside = h.inside;
          older = h.older;
        },
        refl,
      )

-- What `next` gives before a record of the page, and before a full block.
pub next-IsAt :
    (fm : FileMgr) (name : Str) (it : LogIterator) (r : List ℕ) (rs : List (List ℕ))
    (olds : List (List (List ℕ)))
    → IsAt fm name it (r ∷ rs) olds
    → Succeeds
        (λ (x : FileMgr × LogIterator × List ℕ). IsAt x.0 name x.1 rs olds × (x.2 ≡ r))
        (next fm it)
unfolding next previous_block
next-IsAt fm name it r rs olds h =
    let inner : (it.curr_pos == pos fm.block_size) ≡ false =
      rw (h.curr) (inside_page h.at fm.block_size (omega (arith, h.packed.1, h.size))) in
    rw inner (next-IsAt_here fm name it r rs olds h)
  where
    inside_page : (a b : ℕ) → a < b → int_beq (pos a) (pos b) ≡ false
    inside_page a b lt = ground arith

pub before : (n : ℕ) → pos (suc n) +ℤ negsuc 0 ≡ pos n
unfolding ◌+ℤ◌
before n = ground arith

pub next-IsAt_back :
    (fm : FileMgr) (name : Str) (it : LogIterator) (r : List ℕ) (rs : List (List ℕ))
    (olds : List (List (List ℕ)))
    → IsAt fm name it [] ((r ∷ rs) ∷ olds)
    → Succeeds
        (λ (x : FileMgr × LogIterator × List ℕ). IsAt x.0 name x.1 rs olds × (x.2 ≡ r))
        (next fm it)
unfolding next previous_block
next-IsAt_back fm name it r rs olds h =
    let at_end : (it.curr_pos == pos fm.block_size) ≡ true =
      rw (h.curr, h.packed, h.size) (eq_self (pos fm.block_size)) in
    let back : pos (suc (length olds)) +ℤ negsuc 0 ≡ pos (length olds) = before (length olds) in
    rw (at_end, h.blk, back)
      (Succeeds-bind (λ (x : FileMgr × LogIterator). IsAt x.0 name x.1 (r ∷ rs) olds) _ _ _
        (move_to_block-IsAt fm name
          (record it { blk = record { file_name = name; number = pos (suc (length olds)) } })
          (r ∷ rs) olds h.count h.size h.file (omega (arith, h.inside)) h.older.0 h.older.2)
        (λ x g. next-IsAt_here x.0 name x.1 r rs olds g))
