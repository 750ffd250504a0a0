-- ===== src/Buffer/Pool/Invariant.antt =====
-- The pool's invariant, and that pinning, unpinning and flushing return and keep it.
use sample_db.Base.{
  ℕ, ◌≡◌, refl, sym, List, [], ◌∷◌, true, false, not, Option, none, some, ℤ, pos, negsuc, ◌+ℤ◌,
  int_lt, Succeeds, Succeeds-bind, Succeeds-map, get_elem?, set, if◌then◌else◌, arith, ◌⊎◌, inl,
  inr,
}
use mathlib.Core.Path.{subst}
use sample_db.File.BlockId.{BlockId, block_beq_iff}
use sample_db.File.FileMgr.Total.{IsNatural}
use sample_db.Buffer.Frame.{Buffer, is_pinned, pin_buffer}
use sample_db.Buffer.Frame.Total.{LogIsReady, FrameIsReady, Assigned, assign_to_block-Succeeds}
use sample_db.Buffer.Pool.{
  BufferMgr, find_existing_buffer, choose_unpinned_buffer, pin_at, assign_at, pin_other, pin_found,
  try_to_pin,
}
use sample_db.Buffer.Pool.Frames.{
  AllFrames, AllFrames-get, AllFrames-set, get_elem?-set_self, first_index-some, first_index-none,
  unpinned, unpinned-set, Absent, DistinctBlocks, DistinctBlocks-keep, DistinctBlocks-take,
}

pub record PoolIsValid (m : BufferMgr) : Type 0 where
  pub log : LogIsReady m.fm.block_size m.lm
  pub frames : AllFrames (FrameIsReady m.fm.block_size) m.pool
  pub available : m.num_available ≡ pos (unpinned m.pool)
  pub distinct : DistinctBlocks m.pool

-- The frame of the pool at an index has the block and at least one pin.
abbrev pub Holds : BufferMgr → BlockId → ℕ → Type 0
Holds m blk i = (b : Buffer) × (get_elem? m.pool i ≡ some b) × (b.blk ≡ blk) × (is_pinned b ≡ true)

-- A pin of a frame at an index: the invariant stays, and the frame is pinned.
pin_pins : (n : ℤ) → IsNatural n → (int_lt (pos 0) (n +ℤ pos 1) ≡ true) × IsNatural (n +ℤ pos 1)
unfolding ◌+ℤ◌
pin_pins (pos n) h = ground arith
pin_pins (negsuc n) h = cc

abbrev PinnedAt : BlockId → ℕ → BufferMgr × Option ℕ → Type 0
PinnedAt blk i r = PoolIsValid r.0 × (r.1 ≡ some i) × Holds r.0 blk i

available-pin :
    (n : ℤ) (bs : List Buffer) (i : ℕ) (b : Buffer)
    → IsNatural b.pins
    → get_elem? bs i ≡ some b
    → n ≡ pos (unpinned bs)
    → (if is_pinned b then n else n +ℤ negsuc 0) ≡ pos (unpinned (set bs i (pin_buffer b)))
unfolding ◌+ℤ◌
available-pin n bs i b p e h =
    ground (arith, unpinned-set bs i b (pin_buffer b) e, pin_pins b.pins p)

pin_at-Succeeds :
    (m : BufferMgr) (i : ℕ) (b : Buffer)
    → PoolIsValid m
    → get_elem? m.pool i ≡ some b
    → Succeeds (PinnedAt b.blk i) (pin_at m i)
unfolding pin_at
pin_at-Succeeds m i b v e = rw e (
  record {
    log = v.log;
    frames = AllFrames-set _ m.pool i (pin_buffer b) v.frames (record {
      fits = ready.fits;
      natural = ready.natural;
      pinned = (pin_pins b.pins ready.pinned).1;
    });
    available = available-pin m.num_available m.pool i b ready.pinned e v.available;
    distinct = DistinctBlocks-keep m.pool i b (pin_buffer b) v.distinct e refl;
  },
  refl,
  (
    pin_buffer b,
    get_elem?-set_self m.pool i b (pin_buffer b) e,
    refl,
    (pin_pins b.pins ready.pinned).0,
  ),
)
  where
    ready : FrameIsReady m.fm.block_size b
    ready = AllFrames-get (FrameIsReady m.fm.block_size) m.pool i b v.frames e

-- What assigning a frame without pins leaves: a valid pool whose frame has the block.
abbrev AssignedAt : BlockId → ℕ → BufferMgr → Type 0
AssignedAt blk i m = PoolIsValid m × ((b : Buffer) × (get_elem? m.pool i ≡ some b) × (b.blk ≡ blk))

available-assign :
    (n : ℤ) (bs : List Buffer) (i : ℕ) (b c : Buffer)
    → not (is_pinned b) ≡ true
    → c.pins ≡ pos 0
    → get_elem? bs i ≡ some b
    → n ≡ pos (unpinned bs)
    → n ≡ pos (unpinned (set bs i c))
available-assign n bs i b c free zero_pins e h = ground (arith, unpinned-set bs i b c e)

assign_at-Succeeds :
    (m : BufferMgr) (i : ℕ) (b : Buffer) (blk : BlockId)
    → PoolIsValid m
    → get_elem? m.pool i ≡ some b
    → not (is_pinned b) ≡ true
    → IsNatural blk.number
    → Absent blk m.pool
    → Succeeds (AssignedAt blk i) (assign_at m i blk)
unfolding assign_at
assign_at-Succeeds m i b blk v e free nat absent = rw e (
    Succeeds-bind (Assigned m.fm.block_size blk) (AssignedAt blk i) _ _
      (assign_to_block-Succeeds m.fm m.lm b blk v.log ready nat)
      λ r h. (
        record {
          log = rw h.0 h.1;
          frames =
              AllFrames-set (FrameIsReady r.0.block_size) m.pool i r.2
                (subst (λ n. AllFrames (FrameIsReady n) m.pool) (sym h.0) v.frames) (rw h.0 h.2);
          available = available-assign m.num_available m.pool i b r.2 free h.4 e v.available;
          distinct =
              DistinctBlocks-take m.pool i r.2 v.distinct
                (subst (λ k. Absent k m.pool) (sym h.3) absent);
        },
        (r.2, get_elem?-set_self m.pool i b r.2 e, h.3),
      ))
  where
    ready : FrameIsReady m.fm.block_size b
    ready = AllFrames-get (FrameIsReady m.fm.block_size) m.pool i b v.frames e

-- A try gives a pinned frame with the block, or fails and changes nothing: then no frame has the
-- block and every frame is pinned.
abbrev pub Tried : BufferMgr → BlockId → BufferMgr × Option ℕ → Type 0
Tried m blk r =
    PoolIsValid r.0
    × (((i : ℕ) × (r.1 ≡ some i) × Holds r.0 blk i)
        ⊎ ((r ≡ (m, none)) × Absent blk m.pool × AllFrames (λ b. is_pinned b ≡ true) m.pool))

pinned-Tried :
    (m m' : BufferMgr) (blk : BlockId) (i : ℕ) (b : Buffer)
    → PoolIsValid m'
    → get_elem? m'.pool i ≡ some b
    → b.blk ≡ blk
    → Succeeds (Tried m blk) (pin_at m' i)
pinned-Tried m m' blk i b v e same =
    Succeeds-map (PinnedAt b.blk i) (Tried m blk) _ (pin_at-Succeeds m' i b v e)
      λ r h. (h.0, inl (i, h.1, subst (λ k. Holds r.0 k i) same h.2))

none_free :
    (bs : List Buffer)
    → AllFrames (λ b. not (is_pinned b) ≡ false) bs
    → AllFrames (λ b. is_pinned b ≡ true) bs
none_free [] a = tt
none_free (b ∷ bs) a = (ground arith, none_free bs a.1)

pin_other-Succeeds :
    (m : BufferMgr) (blk : BlockId) (o : Option ℕ)
    → PoolIsValid m
    → IsNatural blk.number
    → Absent blk m.pool
    → choose_unpinned_buffer m.pool ≡ o
    → Succeeds (Tried m blk) (pin_other m blk o)
unfolding pin_other
pin_other-Succeeds m blk none v nat absent e =
    (v, inr (refl, absent, none_free m.pool (first_index-none _ m.pool e)))
pin_other-Succeeds m blk (some i) v nat absent e =
    let (b, at, free) = first_index-some _ m.pool i e in
    Succeeds-bind (AssignedAt blk i) (Tried m blk) _ _
      (assign_at-Succeeds m i b blk v at free nat absent)
      λ m' h. pinned-Tried m m' blk i (h.1).0 h.0 (h.1).1 (h.1).2

pin_found-Succeeds :
    (m : BufferMgr) (blk : BlockId) (o : Option ℕ)
    → PoolIsValid m
    → IsNatural blk.number
    → find_existing_buffer blk m.pool ≡ o
    → Succeeds (Tried m blk) (pin_found m blk o)
unfolding pin_found
pin_found-Succeeds m blk none v nat e =
    pin_other-Succeeds m blk _ v nat (first_index-none _ m.pool e) refl
pin_found-Succeeds m blk (some i) v nat e =
    let (b, at, same) = first_index-some _ m.pool i e in
    pinned-Tried m m blk i b v at ((block_beq_iff b.blk blk).0 same)

-- In a valid pool a try to pin a block of a file always returns and keeps the pool valid: it gives
-- a pinned frame that has the block, or changes nothing, when no frame has the block and every
-- frame is pinned.
pub try_to_pin-Succeeds :
    (m : BufferMgr) (blk : BlockId)
    → PoolIsValid m
    → IsNatural blk.number
    → Succeeds (Tried m blk) (try_to_pin m blk)
unfolding try_to_pin
try_to_pin-Succeeds m blk v nat = pin_found-Succeeds m blk _ v nat refl
