-- ===== src/Logging/Iterate.antt =====
-- The iterator of a log: it gives the records of the log, the newest first, and comes to an end.
use mathlib.Core.Path.{subst}
use sample_db.Base.{
  ℕ, zero, suc, ◌<◌, ◌≡◌, refl, sym, ap, ◌∙◌, List, [], ◌∷◌, ◌++◌, Str, str_eq, true, false, pos,
  int_eq, ok, ◌>>=◌, Succeeds, Succeeds-bind, Succeeds-eq, length, length-replicate, arith,
}
use sample_db.File.BlockId.{BlockId}
use sample_db.File.Page.{new_page}
use sample_db.File.FileMgr.{FileMgr}
use sample_db.File.FileMgr.Blocks.{stored, block_bytes-stored_self}
use sample_db.File.FileMgr.Whole.{stored-HasBlocks}
use sample_db.Logging.{
  LogMgr, LogIterator, move_to_block, new_iterator, iterator, has_next, next, drain,
}
use sample_db.Logging.Records.{PageHolds}
use sample_db.Logging.State.{records_of, flush_page-eq}
use sample_db.Logging.Append.{Logs}
use sample_db.Logging.Room.{Olds-stored}
use sample_db.Logging.Position.{IsAt, move_to_block-IsAt, next-IsAt, next-IsAt_back}

pub more_here :
    (fm : FileMgr) (name : Str) (it : LogIterator) (r : List ℕ) (rs : List (List ℕ))
    (olds : List (List (List ℕ)))
    → IsAt fm name it (r ∷ rs) olds
    → has_next fm it ≡ true
unfolding has_next
more_here fm name it r rs olds h =
    let lt : h.at < fm.block_size = omega (arith, h.packed.1, h.size) in
    rw (h.curr, h.blk) (ground arith)

pub more_back :
    (fm : FileMgr) (name : Str) (it : LogIterator) (rs : List (List ℕ))
    (olds : List (List (List ℕ)))
    → IsAt fm name it [] (rs ∷ olds)
    → has_next fm it ≡ true
unfolding has_next
more_back fm name it rs olds h = rw (h.curr, h.blk) (ground arith)

pub none_left :
    (fm : FileMgr) (name : Str) (it : LogIterator) → IsAt fm name it [] [] → has_next fm it ≡ false
unfolding has_next
none_left fm name it h = rw (h.curr, h.blk, h.packed, h.size) (ground arith)

drain-step :
    (fuel : ℕ) (fm : FileMgr) (it : LogIterator) (x : FileMgr × LogIterator × List ℕ)
    (rest : List (List ℕ))
    → has_next fm it ≡ true
    → next fm it ≡ ok x
    → drain fuel x.0 x.1 ≡ ok rest
    → drain (suc fuel) fm it ≡ ok (x.2 ∷ rest)
unfolding drain
drain-step fuel fm it x rest h e d = rw (drain, h, e, d) refl

-- What the loop over the iterator gives from a position: all records below it.
drain-IsAt :
    (fuel : ℕ) (fm : FileMgr) (name : Str) (it : LogIterator) (rs : List (List ℕ))
    (olds : List (List (List ℕ)))
    → IsAt fm name it rs olds
    → length (rs ++ records_of olds) < fuel
    → drain fuel fm it ≡ ok (rs ++ records_of olds)
unfolding drain has_next
drain-IsAt zero fm name it rs olds h lt = absurd (omega arith)
drain-IsAt (suc fuel) fm name it (r ∷ rs) olds h lt =
    let (x, e, (g, same)) =
      Succeeds-eq (λ (x : FileMgr × LogIterator × List ℕ). IsAt x.0 name x.1 rs olds × (x.2 ≡ r))
        (next fm it) (next-IsAt fm name it r rs olds h) in
    drain-step fuel fm it x (rs ++ records_of olds) (more_here fm name it r rs olds h) e
      (drain-IsAt fuel x.0 name x.1 rs olds g (omega arith))
    ∙ ap (λ q. ok (q ∷ rs ++ records_of olds)) same
drain-IsAt (suc fuel) fm name it [] [] h lt = rw (drain, none_left fm name it h) refl
drain-IsAt (suc fuel) fm name it [] ([] ∷ olds) h lt = absurd (omega (arith, h.older.1))
drain-IsAt (suc fuel) fm name it [] ((r ∷ rs) ∷ olds) h lt =
    let (x, e, (g, same)) =
      Succeeds-eq (λ (x : FileMgr × LogIterator × List ℕ). IsAt x.0 name x.1 rs olds × (x.2 ≡ r))
        (next fm it) (next-IsAt_back fm name it r rs olds h) in
    drain-step fuel fm it x (rs ++ records_of olds) (more_back fm name it (r ∷ rs) olds h) e
      (drain-IsAt fuel x.0 name x.1 rs olds g (omega arith))
    ∙ ap (λ q. ok (q ∷ rs ++ records_of olds)) same

-- The iterator of a log stands before the records of its last block.
pub iterator-IsAt :
    (fm : FileMgr) (lm : LogMgr) (rs : List (List ℕ)) (h : Logs fm lm rs)
    → Succeeds
        (λ (x : FileMgr × LogMgr × LogIterator). IsAt x.0 lm.log_file_name x.2 h.cur h.olds)
        (iterator fm lm)
unfolding iterator
iterator-IsAt fm lm rs h =
    rw (flush_page-eq fm lm (length h.olds) h.is_log.blk h.is_log.page.size, h.is_log.blk)
      (Succeeds-bind (λ (x : FileMgr × LogIterator). IsAt x.0 lm.log_file_name x.1 h.cur h.olds)
        (λ (x : FileMgr × LogMgr × LogIterator). IsAt x.0 lm.log_file_name x.2 h.cur h.olds) _ _
        start (λ x g. g))
  where
    fm1 : FileMgr
    fm1 = stored fm lm.log_file_name (length h.olds) lm.log_page

    at : BlockId
    at = record { file_name = lm.log_file_name; number = pos (length h.olds) }

    start :
        Succeeds
          (λ (x : FileMgr × LogIterator). IsAt x.0 lm.log_file_name x.1 h.cur h.olds)
          (move_to_block fm1 (new_iterator fm1 at) at)
    start =
        move_to_block-IsAt fm1 lm.log_file_name (new_iterator fm1 at) h.cur h.olds
          (suc (length h.olds)) (unfold new_page in length-replicate fm.block_size 0)
          (stored-HasBlocks fm lm.log_file_name (length h.olds) (suc (length h.olds)) lm.log_page
            h.is_log.page.size h.is_log.file (omega arith))
          (omega arith)
          (subst (λ b. PageHolds fm.block_size (record { bytes = b }) h.cur)
            (sym (
              block_bytes-stored_self fm lm.log_file_name (length h.olds) lm.log_page
                h.is_log.page.size))
            h.is_log.page)
          (Olds-stored fm lm h.cur h.olds h.is_log)

-- The iterator of a log, run to its end, gives the records that the log holds, the newest first:
-- as many turns as there are records, and one more, are enough.
pub drain-iterator :
    (fm : FileMgr) (lm : LogMgr) (rs : List (List ℕ)) (fuel : ℕ)
    → Logs fm lm rs
    → length rs < fuel
    → (do (fm', lm', it) ← iterator fm lm; drain fuel fm' it) ≡ ok rs
drain-iterator fm lm rs fuel h lt =
    let (x, e, g) =
      Succeeds-eq
        (λ (x : FileMgr × LogMgr × LogIterator). IsAt x.0 lm.log_file_name x.2 h.cur h.olds)
        (iterator fm lm) (iterator-IsAt fm lm rs h) in
    rw e (drain-IsAt fuel x.0 lm.log_file_name x.2 h.cur h.olds g (rw (h.all) lt) ∙ ap ok h.all)
