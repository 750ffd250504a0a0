-- ===== src/Buffer/Frame/Total.antt =====
-- A frame whose page is one block can always be flushed and assigned.
use sample_db.Base.{
  ℕ, ◌≡◌, refl, sym, ◌∙◌, true, false, ℤ, pos, int_lt, Succeeds, Succeeds-bind, length, Bool-cases,
  inl, inr,
}
use sample_db.File.BlockId.{BlockId}
use sample_db.File.FileMgr.{FileMgr}
use sample_db.File.FileMgr.Blocks.{FitsBlock}
use sample_db.File.FileMgr.Total.{IsNatural, write-Succeeds, read-Succeeds}
use sample_db.Logging.{LogMgr, flush, flush_page}
use sample_db.Buffer.Frame.{Buffer, flush_buffer, assign_to_block}

-- The log page is one block, and the log's block is one of a file.
pub record LogIsReady (n : ℕ) (lm : LogMgr) : Type 0 where
  pub fits : length lm.log_page.bytes ≡ n
  pub natural : IsNatural lm.curr_blk.number

-- A frame's page is one block; a modified frame has a block of a file; pins are counted from 0.
pub record FrameIsReady (n : ℕ) (b : Buffer) : Type 0 where
  pub fits : length b.page.bytes ≡ n
  pub natural : int_lt b.txnum (pos 0) ≡ false → IsNatural b.blk.number
  pub pinned : IsNatural b.pins

abbrev pub LogKept : ℕ → FileMgr × LogMgr → Type 0
LogKept n r = (r.0.block_size ≡ n) × LogIsReady n r.1

pub flush_page-Succeeds :
    (fm : FileMgr) (lm : LogMgr)
    → LogIsReady fm.block_size lm
    → Succeeds (LogKept fm.block_size) (flush_page fm lm)
unfolding flush_page
flush_page-Succeeds fm lm v =
    Succeeds-bind (λ fm'. fm'.block_size ≡ fm.block_size) (LogKept fm.block_size) _ _
      (write-Succeeds fm lm.curr_blk lm.log_page v.natural v.fits)
      (λ fm' e. (e, record { fits = v.fits; natural = v.natural }))

pub flush-Succeeds :
    (fm : FileMgr) (lm : LogMgr) (lsn : ℤ)
    → LogIsReady fm.block_size lm
    → Succeeds (LogKept fm.block_size) (flush fm lm lsn)
unfolding flush
flush-Succeeds fm lm lsn v = elim (Bool-cases (int_lt lsn (pos lm.last_save_lsn))) [
  | inl e ↦ rw e (refl, v)
  | inr e ↦ rw e (flush_page-Succeeds fm lm v)
]

-- What a flush leaves: the frame with its page, block and pins, and no longer modified.
abbrev pub Flushed : ℕ → Buffer → FileMgr × LogMgr × Buffer → Type 0
Flushed n b r =
    (r.0.block_size ≡ n)
    × LogIsReady n r.1
    × FrameIsReady n r.2
    × (int_lt r.2.txnum (pos 0) ≡ true)
    × (r.2.blk ≡ b.blk)
    × (r.2.pins ≡ b.pins)
    × (r.2.page ≡ b.page)

pub flush_buffer-Succeeds :
    (fm : FileMgr) (lm : LogMgr) (b : Buffer)
    → LogIsReady fm.block_size lm
    → FrameIsReady fm.block_size b
    → Succeeds (Flushed fm.block_size b) (flush_buffer fm lm b)
unfolding flush_buffer
flush_buffer-Succeeds fm lm b v w = elim (Bool-cases (int_lt b.txnum (pos 0))) [
  | inl e ↦ rw e (refl, v, w, e, refl, refl, refl)
  | inr e ↦ rw e (
      Succeeds-bind (LogKept fm.block_size) (Flushed fm.block_size b) _ _
        (flush-Succeeds fm lm b.lsn v)
        λ r h.
          Succeeds-bind (λ fm''. fm''.block_size ≡ r.0.block_size) (Flushed fm.block_size b) _ _
            (write-Succeeds r.0 b.blk b.page (w.natural e) (w.fits ∙ sym h.0))
            λ fm'' s. (
              s ∙ h.0,
              h.1,
              record { fits = w.fits; natural = λ t. cc; pinned = w.pinned },
              refl,
              refl,
              refl,
              refl,
            ))
]

abbrev pub Assigned : ℕ → BlockId → FileMgr × LogMgr × Buffer → Type 0
Assigned n blk r =
    (r.0.block_size ≡ n)
    × LogIsReady n r.1
    × FrameIsReady n r.2
    × (r.2.blk ≡ blk)
    × (r.2.pins ≡ pos 0)

pub assign_to_block-Succeeds :
    (fm : FileMgr) (lm : LogMgr) (b : Buffer) (blk : BlockId)
    → LogIsReady fm.block_size lm
    → FrameIsReady fm.block_size b
    → IsNatural blk.number
    → Succeeds (Assigned fm.block_size blk) (assign_to_block fm lm b blk)
unfolding assign_to_block
assign_to_block-Succeeds fm lm b blk v w i =
    Succeeds-bind (Flushed fm.block_size b) (Assigned fm.block_size blk) _ _
      (flush_buffer-Succeeds fm lm b v w)
      λ r h.
        Succeeds-bind (λ q. (q.0.block_size ≡ r.0.block_size) × FitsBlock r.0 q.1)
          (Assigned fm.block_size blk) _ _ (read-Succeeds r.0 blk r.2.page i (h.2.fits ∙ sym h.0))
          λ q g. (
            g.0 ∙ h.0,
            h.1,
            record { fits = g.1 ∙ h.0; natural = λ _. i; pinned = refl },
            refl,
            refl,
          )
