-- ===== src/Buffer/Pool/Release.antt =====
-- Unpinning a frame, and flushing the frames of a transaction.
use sample_db.Base.{
  ℕ, ◌≡◌, ◌≢◌, refl, sym, ap, ◌∙◌, List, [], ◌∷◌, true, false, some, ℤ, pos, negsuc, ◌+ℤ◌, int_lt,
  ok, Succeeds, Succeeds-bind, Succeeds-map, get_elem?, set, if◌then◌else◌, arith, Bool-cases, inl,
  inr, ◌==◌, int_eq, eq_iff,
}
use mathlib.Core.Path.{subst}
use sample_db.File.BlockId.{BlockId, block_beq}
use sample_db.File.FileMgr.{FileMgr}
use sample_db.File.FileMgr.Total.{IsNatural}
use sample_db.Logging.{LogMgr}
use sample_db.Buffer.Frame.{Buffer, is_pinned, unpin_buffer, flush_buffer}
use sample_db.Buffer.Frame.Total.{LogIsReady, FrameIsReady, Flushed, flush_buffer-Succeeds}
use sample_db.Buffer.Pool.{BufferMgr, unpin, flush_frames, flush_all}
use sample_db.Buffer.Pool.Frames.{
  AllFrames, AllFrames-get, AllFrames-set, unpinned, unpinned-set, DistinctBlocks,
  DistinctBlocks-keep, Absent,
}
use sample_db.Buffer.Pool.Invariant.{PoolIsValid}

unpin_pins : (n : ℤ) → int_lt (pos 0) n ≡ true → IsNatural (n +ℤ negsuc 0)
unfolding ◌+ℤ◌
unpin_pins (pos n) h = ground arith
unpin_pins (negsuc n) h = cc

available-unpin :
    (n : ℤ) (bs : List Buffer) (i : ℕ) (b : Buffer)
    → is_pinned b ≡ true
    → get_elem? bs i ≡ some b
    → n ≡ pos (unpinned bs)
    → (if is_pinned (unpin_buffer b) then n else n +ℤ pos 1)
      ≡ pos (unpinned (set bs i (unpin_buffer b)))
unfolding ◌+ℤ◌
available-unpin n bs i b p e h = ground (arith, unpinned-set bs i b (unpin_buffer b) e)

-- Unpinning a pinned frame of a valid pool returns, keeps the pool valid, and takes one pin off that
-- frame.
pub unpin-Succeeds :
    (m : BufferMgr) (i : ℕ) (b : Buffer)
    → PoolIsValid m
    → get_elem? m.pool i ≡ some b
    → is_pinned b ≡ true
    → Succeeds (λ m'. PoolIsValid m' × (m'.pool ≡ set m.pool i (unpin_buffer b))) (unpin m i)
unfolding unpin
unpin-Succeeds m i b v e p = rw e (
  record {
    log = v.log;
    frames =
        AllFrames-set (FrameIsReady m.fm.block_size) m.pool i (unpin_buffer b) v.frames
          (record { fits = ready.fits; natural = ready.natural; pinned = unpin_pins b.pins p });
    available = available-unpin m.num_available m.pool i b p e v.available;
    distinct = DistinctBlocks-keep m.pool i b (unpin_buffer b) v.distinct e refl;
  },
  refl,
)
  where
    ready : FrameIsReady m.fm.block_size b
    ready = AllFrames-get (FrameIsReady m.fm.block_size) m.pool i b v.frames e

-- The frames before and after a flush: page, block and pins are the same, and no frame is still
-- modified by the transaction.
abbrev pub SameFrames : ℤ → List Buffer → List Buffer → Type 0
SameFrames tx [] [] = Unit {0}
SameFrames tx (b ∷ bs) (c ∷ cs) =
    (c.page ≡ b.page) × (c.blk ≡ b.blk) × (c.pins ≡ b.pins) × (c.txnum ≢ tx) × SameFrames tx bs cs
SameFrames tx _ _ = ⊥

abbrev FlushedFrames : ℕ → ℤ → List Buffer → FileMgr × LogMgr × List Buffer → Type 0
FlushedFrames n tx bs r =
    (r.0.block_size ≡ n) × LogIsReady n r.1 × AllFrames (FrameIsReady n) r.2 × SameFrames tx bs r.2

abbrev FlushedOne : ℕ → ℤ → Buffer → FileMgr × LogMgr × Buffer → Type 0
FlushedOne n tx b r =
    (r.0.block_size ≡ n)
    × LogIsReady n r.1
    × FrameIsReady n r.2
    × (r.2.page ≡ b.page)
    × (r.2.blk ≡ b.blk)
    × (r.2.pins ≡ b.pins)
    × (r.2.txnum ≢ tx)

not_modified : (t tx : ℤ) → IsNatural tx → int_lt t (pos 0) ≡ true → t ≢ tx
not_modified t tx nat h e = cc (ap (λ (k : ℤ). int_lt k (pos 0)) e)

flush_one-Succeeds :
    (fm : FileMgr) (lm : LogMgr) (tx : ℤ) (b : Buffer)
    → IsNatural tx
    → LogIsReady fm.block_size lm
    → FrameIsReady fm.block_size b
    → Succeeds
        (FlushedOne fm.block_size tx b)
        (if b.txnum == tx then flush_buffer fm lm b else ok (fm, lm, b))
flush_one-Succeeds fm lm tx b nat v w = elim (Bool-cases (b.txnum == tx)) [
  | inl e ↦ rw e (
      Succeeds-map (Flushed fm.block_size b) (FlushedOne fm.block_size tx b) _
        (flush_buffer-Succeeds fm lm b v w)
        λ r h. (h.0, h.1, h.2, h.6, h.4, h.5, not_modified r.2.txnum tx nat h.3))
  | inr e ↦ rw e (refl, v, w, refl, refl, refl, λ q. cc ((eq_iff b.txnum tx).1 q))
]

flush_frames-Succeeds :
    (fm : FileMgr) (lm : LogMgr) (n : ℕ) (tx : ℤ) (bs : List Buffer)
    → fm.block_size ≡ n
    → IsNatural tx
    → LogIsReady n lm
    → AllFrames (FrameIsReady n) bs
    → Succeeds (FlushedFrames n tx bs) (flush_frames fm lm tx bs)
unfolding flush_frames
flush_frames-Succeeds fm lm n tx [] e nat v a = (e, v, tt, tt)
flush_frames-Succeeds fm lm n tx (b ∷ bs) e nat v a =
    Succeeds-bind (FlushedOne fm.block_size tx b) (FlushedFrames n tx (b ∷ bs)) _ _
      (flush_one-Succeeds fm lm tx b nat (subst (λ k. LogIsReady k lm) (sym e) v)
        (subst (λ k. FrameIsReady k b) (sym e) a.0))
      λ r h.
        Succeeds-bind (FlushedFrames n tx bs) (FlushedFrames n tx (b ∷ bs)) _ _
          (flush_frames-Succeeds r.0 r.1 n tx bs (h.0 ∙ e) nat (subst (λ k. LogIsReady k r.1) e h.1)
            a.1)
          λ q g. (g.0, g.1, (subst (λ k. FrameIsReady k r.2) e h.2, g.2), (h.3, h.4, h.5, h.6, g.3))

count-SameFrames : (tx : ℤ) (bs cs : List Buffer) → SameFrames tx bs cs → unpinned cs ≡ unpinned bs
unfolding unpinned
count-SameFrames tx [] [] s = refl
count-SameFrames tx [] (c ∷ cs) s = absurd s
count-SameFrames tx (b ∷ bs) [] s = absurd s
count-SameFrames tx (b ∷ bs) (c ∷ cs) s = ground (arith, count-SameFrames tx bs cs s.4, s.2)

Absent-SameFrames :
    (tx : ℤ) (blk : BlockId) (bs cs : List Buffer)
    → SameFrames tx bs cs
    → Absent blk bs
    → Absent blk cs
Absent-SameFrames tx blk [] [] s a = tt
Absent-SameFrames tx blk [] (c ∷ cs) s a = absurd s
Absent-SameFrames tx blk (b ∷ bs) [] s a = absurd s
Absent-SameFrames tx blk (b ∷ bs) (c ∷ cs) s a =
    (subst (λ k. block_beq k blk ≡ false) (sym s.1) a.0, Absent-SameFrames tx blk bs cs s.4 a.1)

distinct-SameFrames :
    (tx : ℤ) (bs cs : List Buffer) → SameFrames tx bs cs → DistinctBlocks bs → DistinctBlocks cs
distinct-SameFrames tx [] [] s d = tt
distinct-SameFrames tx [] (c ∷ cs) s d = absurd s
distinct-SameFrames tx (b ∷ bs) [] s d = absurd s
distinct-SameFrames tx (b ∷ bs) (c ∷ cs) s d = (
  subst (λ k. IsNatural k.number → Absent k cs) (sym s.1)
      (λ i. Absent-SameFrames tx b.blk bs cs s.4 (d.0 i)),
  distinct-SameFrames tx bs cs s.4 d.1,
)

-- Flushing a transaction in a valid pool returns and keeps the pool valid: every frame has its
-- page, block and pins, and none is still modified by the transaction.
pub flush_all-Succeeds :
    (m : BufferMgr) (tx : ℤ)
    → PoolIsValid m
    → IsNatural tx
    → Succeeds (λ m'. PoolIsValid m' × SameFrames tx m.pool m'.pool) (flush_all m tx)
unfolding flush_all
flush_all-Succeeds m tx v nat =
    Succeeds-bind (FlushedFrames m.fm.block_size tx m.pool)
      (λ m'. PoolIsValid m' × SameFrames tx m.pool m'.pool) _ _
      (flush_frames-Succeeds m.fm m.lm m.fm.block_size tx m.pool refl nat v.log v.frames)
      λ r h. (
        record {
          log = rw h.0 h.1;
          frames = rw h.0 h.2;
          available = v.available ∙ ap pos (sym (count-SameFrames tx m.pool r.2 h.3));
          distinct = distinct-SameFrames tx m.pool r.2 h.3 v.distinct;
        },
        h.3,
      )
