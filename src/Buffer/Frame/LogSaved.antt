-- ===== src/Buffer/Frame/LogSaved.antt =====
-- What a flush of the log saves for a frame.
use sample_db.Base.{
  ℕ, ◌≡◌, refl, true, ℤ, pos, int_lt, Succeeds, Succeeds-bind, Bool-cases, ◌⊎◌, inl, inr, int_eq,
}
use sample_db.File.FileMgr.{FileMgr}
use sample_db.File.FileMgr.OnDisk.{OnDisk, Keeps, Written, write-Written}
use sample_db.Logging.{LogMgr, flush, flush_page}
use sample_db.Buffer.Frame.Total.{LogIsReady}

-- The log page is on disk.
abbrev pub LogOnDisk : LogMgr → FileMgr → Type 0
LogOnDisk lm fm = OnDisk fm lm.curr_blk lm.log_page

-- What the log holds up to this number is saved: it was before, or the log page is on disk.
abbrev pub SavedUpTo : LogMgr → ℤ → FileMgr → Type 0
SavedUpTo lm lsn fm = (int_lt lsn (pos lm.last_save_lsn) ≡ true) ⊎ LogOnDisk lm fm

-- The log as it was, or saved.
abbrev pub LogState : LogMgr → FileMgr → LogMgr → Type 0
LogState lm fm lm' =
    (lm' ≡ lm) ⊎ ((lm' ≡ record lm { last_save_lsn = lm.latest_lsn }) × LogOnDisk lm fm)

abbrev pub LogFlushed : LogMgr → ℤ → FileMgr → FileMgr × LogMgr → Type 0
LogFlushed lm lsn fm r =
    (r.0.block_size ≡ fm.block_size)
    × LogState lm r.0 r.1
    × SavedUpTo lm lsn r.0
    × Keeps lm.curr_blk fm r.0
    × (LogOnDisk lm fm → LogOnDisk lm r.0)

flush_page-LogFlushed :
    (fm : FileMgr) (lm : LogMgr) (k : ℕ) (lsn : ℤ)
    → LogIsReady fm.block_size lm
    → Succeeds (LogFlushed lm lsn fm) (flush_page fm (record lm { last_save_lsn = k }))
unfolding flush_page
flush_page-LogFlushed fm lm k lsn ready =
    Succeeds-bind (Written fm lm.curr_blk lm.log_page) (LogFlushed lm lsn fm) _ _
      (write-Written fm lm.curr_blk lm.log_page ready.natural ready.fits)
      (λ fm' w. (w.0, inr (refl, w.1), inr w.1, w.2, λ _. w.1))

-- A flush of the log returns; the log is then saved up to the number, and other blocks stay.
pub flush-LogFlushed :
    (fm : FileMgr) (lm lm' : LogMgr) (lsn : ℤ)
    → LogIsReady fm.block_size lm
    → LogState lm fm lm'
    → Succeeds (LogFlushed lm lsn fm) (flush fm lm' lsn)
unfolding flush
flush-LogFlushed fm lm lm' lsn ready (inl same) =
    elim (Bool-cases (int_lt lsn (pos lm.last_save_lsn))) [
      | inl e ↦ rw (same, e) (refl, inl refl, inl e, λ b q ne on. on, λ on. on)
      | inr e ↦ rw (same, e) (flush_page-LogFlushed fm lm lm.last_save_lsn lsn ready)
    ]
flush-LogFlushed fm lm lm' lsn ready (inr (same, on)) =
    elim (Bool-cases (int_lt lsn (pos lm.latest_lsn))) [
      | inl e ↦ rw (same, e) (refl, inr (refl, on), inr on, λ b q ne there. there, λ there. there)
      | inr e ↦ rw (same, e) (flush_page-LogFlushed fm lm lm.latest_lsn lsn ready)
    ]

pub SavedUpTo-keep :
    (lm : LogMgr) (lsn : ℤ) (fm fm' : FileMgr)
    → (LogOnDisk lm fm → LogOnDisk lm fm')
    → SavedUpTo lm lsn fm
    → SavedUpTo lm lsn fm'
SavedUpTo-keep lm lsn fm fm' k (inl e) = inl e
SavedUpTo-keep lm lsn fm fm' k (inr on) = inr (k on)

pub LogState-keep :
    (lm lm' : LogMgr) (fm fm' : FileMgr)
    → (LogOnDisk lm fm → LogOnDisk lm fm')
    → LogState lm fm lm'
    → LogState lm fm' lm'
LogState-keep lm lm' fm fm' k (inl e) = inl e
LogState-keep lm lm' fm fm' k (inr (e, on)) = inr (e, k on)
