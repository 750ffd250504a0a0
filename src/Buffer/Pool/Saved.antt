-- ===== src/Buffer/Pool/Saved.antt =====
-- What a flush of a transaction saves: the pages of its frames, and the log page in front of them.
use mathlib.Core.Path.{subst}
use mathlib.Core.Bool.{true≢false}
use sample_db.Base.{
  ℕ, ◌≡◌, ◌≢◌, refl, sym, ap, ◌∙◌, List, [], ◌∷◌, false, ℤ, pos, negsuc, int_lt, ok, err, Result,
  Succeeds, Succeeds-bind, Succeeds-map, if◌then◌else◌, Bool-cases, ◌⊎◌, inl, inr, ◌==◌, int_eq,
  eq_iff,
}
use sample_db.File.BlockId.{BlockId, block_beq, block_beq_iff}
use sample_db.File.Page.{Page}
use sample_db.File.FileMgr.{FileMgr}
use sample_db.File.FileMgr.Total.{IsNatural}
use sample_db.File.FileMgr.OnDisk.{OnDisk, Written, write-Written}
use sample_db.Logging.{LogMgr}
use sample_db.Buffer.Frame.{Buffer, flush_buffer}
use sample_db.Buffer.Frame.Total.{LogIsReady, FrameIsReady}
use sample_db.Buffer.Frame.LogSaved.{
  LogOnDisk, SavedUpTo, LogState, LogFlushed, flush-LogFlushed, SavedUpTo-keep, LogState-keep,
}
use sample_db.Buffer.Pool.{BufferMgr, flush_frames, flush_all}
use sample_db.Buffer.Pool.Frames.{AllFrames, DistinctBlocks, Absent}
use sample_db.Buffer.Pool.Invariant.{PoolIsValid}
use sample_db.Buffer.Pool.Release.{flush_all-Succeeds}

-- A frame before and after: one of the transaction is no longer modified, its page is on disk, and
-- the log is saved up to its number; any other is as it was.
abbrev pub After : LogMgr → ℤ → FileMgr → Buffer → Buffer → Type 0
After lm tx fm b c =
    ((b.txnum ≡ tx)
      × (c ≡ record b { txnum = negsuc 0 })
      × OnDisk fm b.blk b.page
      × SavedUpTo lm b.lsn fm)
    ⊎ ((b.txnum ≢ tx) × (c ≡ b))

abbrev pub AllAfter : LogMgr → ℤ → FileMgr → List Buffer → List Buffer → Type 0
AllAfter lm tx fm [] [] = Unit {0}
AllAfter lm tx fm (b ∷ bs) (c ∷ cs) = After lm tx fm b c × AllAfter lm tx fm bs cs
AllAfter lm tx fm [] (c ∷ cs) = ⊥
AllAfter lm tx fm (b ∷ bs) [] = ⊥

-- No frame holds a block of the file that the log is in.
abbrev pub OutsideLog : LogMgr → List Buffer → Type 0
OutsideLog lm bs = AllFrames (λ b. b.blk.file_name ≢ lm.curr_blk.file_name) bs

-- Blocks of other frames stay on disk, and so does the log page.
abbrev Kept : LogMgr → List Buffer → FileMgr → FileMgr → Type 0
Kept lm bs fm fm' =
    ((k : BlockId)
      → Absent k bs
      → k.file_name ≢ lm.curr_blk.file_name
      → (q : Page) → OnDisk fm k q
      → OnDisk fm' k q)
    × (LogOnDisk lm fm → LogOnDisk lm fm')

beq-ne : (a b : BlockId) → block_beq a b ≡ false → a ≢ b
beq-ne a b h e = true≢false (sym ((block_beq_iff a b).1 e) ∙ h)

file-ne : (a b : BlockId) → a.file_name ≢ b.file_name → a ≢ b
file-ne a b h e = h (ap (λ (x : BlockId). x.file_name) e)

abbrev OneAfter : LogMgr → ℤ → FileMgr → Buffer → FileMgr × LogMgr × Buffer → Type 0
OneAfter lm tx fm b r =
    (r.0.block_size ≡ fm.block_size)
    × LogState lm r.0 r.1
    × After lm tx r.0 b r.2
    × Kept lm (b ∷ []) fm r.0

modified_frame-After :
    (fm : FileMgr) (lm lm' : LogMgr) (tx : ℤ) (b : Buffer)
    → LogIsReady fm.block_size lm
    → LogState lm fm lm'
    → FrameIsReady fm.block_size b
    → b.blk.file_name ≢ lm.curr_blk.file_name
    → b.txnum ≡ tx
    → int_lt b.txnum (pos 0) ≡ false
    → Succeeds (OneAfter lm tx fm b) (flush_buffer fm lm' b)
unfolding flush_buffer
modified_frame-After fm lm lm' tx b log state frame outside own natural = rw natural (
    Succeeds-bind (LogFlushed lm b.lsn fm) (OneAfter lm tx fm b) _ _
      (flush-LogFlushed fm lm lm' b.lsn log state)
      (λ r l.
        Succeeds-bind (Written r.0 b.blk b.page) (OneAfter lm tx fm b) _ _
          (write-Written r.0 b.blk b.page (frame.natural natural) (frame.fits ∙ sym l.0))
          (λ fm' w.
            let keep : LogOnDisk lm r.0 → LogOnDisk lm fm' =
              w.2 lm.curr_blk lm.log_page (file-ne b.blk lm.curr_blk outside) in
            (
              w.0 ∙ l.0,
              LogState-keep lm r.1 r.0 fm' keep l.1,
              inl (own, refl, w.1, SavedUpTo-keep lm b.lsn r.0 fm' keep l.2),
              (
                λ k absent ne q on.
                    w.2 k q (beq-ne b.blk k absent.0)
                      (l.3 k q (λ e. ne (ap (λ (x : BlockId). x.file_name) (sym e))) on),
                λ on. keep (l.4 on),
              ),
            ))))

natural_tx : (t tx : ℤ) → IsNatural tx → t ≡ tx → int_lt t (pos 0) ≡ false
natural_tx t tx nat e = rw e nat

flush_one-After :
    (fm : FileMgr) (lm lm' : LogMgr) (tx : ℤ) (b : Buffer)
    → IsNatural tx
    → LogIsReady fm.block_size lm
    → LogState lm fm lm'
    → FrameIsReady fm.block_size b
    → b.blk.file_name ≢ lm.curr_blk.file_name
    → Succeeds
        (OneAfter lm tx fm b)
        (if b.txnum == tx then flush_buffer fm lm' b else ok (fm, lm', b))
flush_one-After fm lm lm' tx b nat log state frame outside = elim (Bool-cases (b.txnum == tx)) [
  | inl e ↦
      let own = (eq_iff b.txnum tx).0 e in
      rw e (
        modified_frame-After fm lm lm' tx b log state frame outside own
          (natural_tx b.txnum tx nat own))
  | inr e ↦ rw e (
    refl,
    state,
    inr ((λ q. true≢false (sym ((eq_iff b.txnum tx).1 q) ∙ e)), refl),
    ((λ k absent ne q on. on), λ on. on),
  )
]

-- The frame's page and the log stay on disk while the frames behind it are flushed.
After-keep :
    (lm : LogMgr) (tx : ℤ) (fm fm' : FileMgr) (b c : Buffer) (bs : List Buffer)
    → (b.txnum ≡ tx → Absent b.blk bs)
    → b.blk.file_name ≢ lm.curr_blk.file_name
    → Kept lm bs fm fm'
    → After lm tx fm b c
    → After lm tx fm' b c
After-keep lm tx fm fm' b c bs absent outside kept (inl (own, same, on, saved)) = inl (
  own,
  same,
  kept.0 b.blk (absent own) outside b.page on,
  SavedUpTo-keep lm b.lsn fm fm' kept.1 saved,
)
After-keep lm tx fm fm' b c bs absent outside kept (inr h) = inr h

abbrev FramesAfter : LogMgr → ℤ → FileMgr → List Buffer → FileMgr × LogMgr × List Buffer → Type 0
FramesAfter lm tx fm bs r = AllAfter lm tx r.0 bs r.2 × Kept lm bs fm r.0

flush_frames-After :
    (fm : FileMgr) (lm lm' : LogMgr) (n : ℕ) (tx : ℤ) (bs : List Buffer)
    → fm.block_size ≡ n
    → IsNatural tx
    → LogIsReady n lm
    → LogState lm fm lm'
    → AllFrames (FrameIsReady n) bs
    → DistinctBlocks bs
    → OutsideLog lm bs
    → Succeeds (FramesAfter lm tx fm bs) (flush_frames fm lm' tx bs)
unfolding flush_frames
flush_frames-After fm lm lm' n tx [] e nat log state ready distinct outside =
    (tt, ((λ k absent ne q on. on), λ on. on))
flush_frames-After fm lm lm' n tx (b ∷ bs) e nat log state ready distinct outside =
    Succeeds-bind (OneAfter lm tx fm b) (FramesAfter lm tx fm (b ∷ bs)) _ _
      (flush_one-After fm lm lm' tx b nat (subst (λ k. LogIsReady k lm) (sym e) log) state
        (subst (λ k. FrameIsReady k b) (sym e) ready.0) outside.0)
      λ r one.
        Succeeds-bind (FramesAfter lm tx r.0 bs) (FramesAfter lm tx fm (b ∷ bs)) _ _
          (flush_frames-After r.0 lm r.1 n tx bs (one.0 ∙ e) nat log one.1 ready.1 distinct.1
            outside.1)
          λ q (all, kept). (
            (
              After-keep lm tx r.0 q.0 b r.2 bs
                  (λ own. distinct.0 (ready.0.natural (natural_tx b.txnum tx nat own))) outside.0
                  kept one.2,
              all,
            ),
            (
              (λ k absent ne p on. kept.0 k absent.1 ne p (one.3.0 k (absent.0, tt) ne p on)),
              λ on. kept.1 (one.3.1 on),
            ),
          )

-- Two things of what one call gives.
Succeeds-both :
    {A : Type 0} (P Q : A → Type 0) (r : Result A)
    → Succeeds P r
    → Succeeds Q r
    → Succeeds (λ a. P a × Q a) r
Succeeds-both P Q (ok a) h k = (h, k)
Succeeds-both P Q (err e) h k = absurd h

flush_all-After :
    (m : BufferMgr) (tx : ℤ)
    → PoolIsValid m
    → IsNatural tx
    → OutsideLog m.lm m.pool
    → Succeeds (λ m'. AllAfter m.lm tx m'.fm m.pool m'.pool) (flush_all m tx)
unfolding flush_all
flush_all-After m tx v nat outside =
    Succeeds-bind (FramesAfter m.lm tx m.fm m.pool)
      (λ (m' : BufferMgr). AllAfter m.lm tx m'.fm m.pool m'.pool) _ _
      (flush_frames-After m.fm m.lm m.lm m.fm.block_size tx m.pool refl nat v.log (inl refl)
        v.frames v.distinct outside)
      λ r (all, kept). all

-- Flushing a transaction in a valid pool returns and keeps the pool valid. Each frame that the
-- transaction modified is no longer modified, its page is on disk in its block, and the log is saved
-- up to the number of the frame: it was before, or the log page is on disk. Every other frame is as
-- it was. No frame holds a block of the file that the log is in.
pub flush_all-Saves :
    (m : BufferMgr) (tx : ℤ)
    → PoolIsValid m
    → IsNatural tx
    → OutsideLog m.lm m.pool
    → Succeeds (λ m'. PoolIsValid m' × AllAfter m.lm tx m'.fm m.pool m'.pool) (flush_all m tx)
flush_all-Saves m tx v nat outside =
    Succeeds-both PoolIsValid (λ m'. AllAfter m.lm tx m'.fm m.pool m'.pool) _
      (Succeeds-map _ PoolIsValid _ (flush_all-Succeeds m tx v nat) (λ m' h. h.0))
      (flush_all-After m tx v nat outside)
