-- ===== src/Logging/History.antt =====
-- The whole life of a log: opened, appended to, and read from its end.
use sample_db.Base.{
  ℕ, suc, ◌+◌, ◌≤◌, ◌<◌, ◌≡◌, ◌∙◌, List, [], ◌∷◌, Str, Result, ok, ◌>>=◌, Succeeds, Succeeds-bind,
  Succeeds-eq, Succeeds-map, length, arith,
}
use sample_db.File.FileMgr.{FileMgr}
use sample_db.File.FileMgr.Whole.{HasBlocks}
use sample_db.Logging.{LogMgr, open_log, append, iterator, drain}
use sample_db.Logging.Append.{Logs, append-Logs, open_log-Logs}
use sample_db.Logging.Room.{SizeIsRight}
use sample_db.Logging.Iterate.{drain-iterator}

-- One `append` after the other.
unfoldable pub append_all : FileMgr → LogMgr → List (List ℕ) → Result (FileMgr × LogMgr)
append_all fm lm [] = ok (fm, lm)
append_all fm lm (r ∷ rs) = do (fm', lm', lsn) ← append fm lm r; append_all fm' lm' rs

-- The records in the order in which they are read.
abbrev pub newest_first : List (List ℕ) → List (List ℕ) → List (List ℕ)
newest_first [] before = before
newest_first (r ∷ rs) before = newest_first rs (r ∷ before)

-- Each record, its length and the boundary fit a block.
abbrev pub AllFit : ℕ → List (List ℕ) → Type 0
AllFit size [] = Unit {0}
AllFit size (r ∷ rs) = (length r + 8 ≤ size) × AllFit size rs

length-newest_first :
    (rs before : List (List ℕ)) → length (newest_first rs before) ≡ length rs + length before
length-newest_first [] before = omega arith
length-newest_first (r ∷ rs) before =
    let h : length (newest_first rs (r ∷ before)) ≡ length rs + suc (length before) =
      length-newest_first rs (r ∷ before) in
    omega (arith, h)

append_all-Logs :
    (size : ℕ) (fm : FileMgr) (lm : LogMgr) (rs before : List (List ℕ))
    → fm.block_size ≡ size
    → SizeIsRight fm
    → AllFit size rs
    → Logs fm lm before
    → Succeeds
        (λ (x : FileMgr × LogMgr).
          Logs x.0 x.1 (newest_first rs before) × (x.1.latest_lsn ≡ lm.latest_lsn + length rs))
        (append_all fm lm rs)
unfolding append_all
append_all-Logs size fm lm [] before e s fits h = (h, omega arith)
append_all-Logs size fm lm (r ∷ rs) before e s fits h =
    Succeeds-bind
      (λ (x : FileMgr × LogMgr × ℕ).
        Logs x.0 x.1 (r ∷ before)
        × (x.2 ≡ suc lm.latest_lsn)
        × (x.1.latest_lsn ≡ suc lm.latest_lsn)
        × (x.0.block_size ≡ fm.block_size))
      (λ (x : FileMgr × LogMgr).
        Logs x.0 x.1 (newest_first (r ∷ rs) before)
        × (x.1.latest_lsn ≡ lm.latest_lsn + suc (length rs)))
      (append fm lm r) _ (append-Logs fm lm before r h s (omega (arith, fits.0)))
      (λ x g.
        Succeeds-map _ _ (append_all x.0 x.1 rs)
          (append_all-Logs size x.0 x.1 rs (r ∷ before) (g.3 ∙ e) (rw (g.3) s) fits.1 g.0)
          (λ y k. (k.0, omega (arith, k.1, g.2))))

-- On a name that has no file: the log is opened, the records are appended one after the other, and
-- the iterator gives all of them back, the newest first, however many blocks they take. No step
-- fails, where each record and eight bytes fit a block.
pub iterator-append_all :
    (fm : FileMgr) (name : Str) (rs : List (List ℕ)) (fuel : ℕ)
    → HasBlocks fm name 0
    → SizeIsRight fm
    → AllFit fm.block_size rs
    → length rs < fuel
    → (do
      (fm1, lm1) ← open_log fm name
      (fm2, lm2) ← append_all fm1 lm1 rs
      (fm3, lm3, it) ← iterator fm2 lm2
      drain fuel fm3 it)
      ≡ ok (newest_first rs [])
iterator-append_all fm name rs fuel h s fits lt =
    let (x, e, (log, none, size)) =
      Succeeds-eq
        (λ (x : FileMgr × LogMgr).
          Logs x.0 x.1 [] × (x.1.latest_lsn ≡ 0) × (x.0.block_size ≡ fm.block_size))
        (open_log fm name) (open_log-Logs fm name h s) in
    let (y, d, (all, count)) =
      Succeeds-eq
        (λ (y : FileMgr × LogMgr).
          Logs y.0 y.1 (newest_first rs []) × (y.1.latest_lsn ≡ x.1.latest_lsn + length rs))
        (append_all x.0 x.1 rs)
        (append_all-Logs fm.block_size x.0 x.1 rs [] size (rw size s) fits log) in
    rw (e, d)
      (drain-iterator y.0 y.1 (newest_first rs []) fuel all
        (omega (arith, length-newest_first rs [])))
