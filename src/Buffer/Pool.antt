-- ===== src/Buffer/Pool.antt =====
-- buffer/BufferMgr.cpp: pinning, unpinning and flushing the frames of the pool. While a call of
-- `pin` waits, other threads act: a list of wake-ups says what they do and how long it took.
pub mod Frames
pub mod Invariant
pub mod Release
pub mod Saved
use sample_db.Base.{
  ℕ, zero, suc, List, [], ◌∷◌, Bool, true, false, not, Option, none, some, ℤ, pos, negsuc, ◌+ℤ◌,
  Result, ok, err, fault, thrown, starved, ◌>>=◌, of_option, replicate, get_elem?, set, ltb,
  if◌then◌else◌, ◌==◌, int_eq,
}
use mathlib.Core.Option
use sample_db.File.BlockId.{BlockId, block_beq}
use sample_db.File.FileMgr.{FileMgr}
use sample_db.Logging.{LogMgr}
use sample_db.Buffer.Frame.{
  Buffer, new_buffer, is_pinned, flush_buffer, assign_to_block, pin_buffer, unpin_buffer,
}

pub record BufferMgr : Type 0 where
  pub fm : FileMgr
  pub lm : LogMgr
  pub pool : List Buffer
  pub num_available : ℤ

-- The constructor.
abbrev pub new_buffer_mgr : FileMgr → LogMgr → ℕ → BufferMgr
new_buffer_mgr fm lm n = record {
  fm = fm;
  lm = lm;
  pool = replicate n (new_buffer fm);
  num_available = pos n;
}

-- The first frame that passes a test.
unfoldable pub first_index : (Buffer → Bool) → List Buffer → Option ℕ
first_index test [] = none
first_index test (b ∷ bs) =
    let later = Option.map suc (first_index test bs) in if test b then some 0 else later

abbrev pub find_existing_buffer : BlockId → List Buffer → Option ℕ
find_existing_buffer blk pool = first_index (λ b. block_beq b.blk blk) pool

abbrev pub choose_unpinned_buffer : List Buffer → Option ℕ
choose_unpinned_buffer pool = first_index (λ b. not (is_pinned b)) pool

-- The end of `tryToPin`: the frame leaves the available ones, and has one more pin.
unfoldable pub pin_at : BufferMgr → ℕ → Result (BufferMgr × Option ℕ)
pin_at m i = do
  b ← of_option (get_elem? m.pool i) fault
  ok (
    record m {
      num_available = if is_pinned b then m.num_available else m.num_available +ℤ negsuc 0;
      pool = set m.pool i (pin_buffer b);
    },
    some i,
  )

-- The chosen frame takes the block.
unfoldable pub assign_at : BufferMgr → ℕ → BlockId → Result BufferMgr
unfolding assign_to_block
assign_at m i blk = do
  b ← of_option (get_elem? m.pool i) fault
  (fm, lm, b') ← assign_to_block m.fm m.lm b blk
  ok (record m { fm = fm; lm = lm; pool = set m.pool i b' })

-- No frame has the block: a frame without pins takes it, if there is one.
unfoldable pub pin_other : BufferMgr → BlockId → Option ℕ → Result (BufferMgr × Option ℕ)
unfolding assign_at pin_at
pin_other m blk none = ok (m, none)
pin_other m blk (some i) = do m' ← assign_at m i blk; pin_at m' i

unfoldable pub pin_found : BufferMgr → BlockId → Option ℕ → Result (BufferMgr × Option ℕ)
unfolding pin_at pin_other first_index
pin_found m blk (some i) = pin_at m i
pin_found m blk none = pin_other m blk (choose_unpinned_buffer m.pool)

-- `none` is the null pointer: every frame is pinned.
unfoldable pub try_to_pin : BufferMgr → BlockId → Result (BufferMgr × Option ℕ)
unfolding pin_found first_index
try_to_pin m blk = pin_found m blk (find_existing_buffer blk m.pool)

abbrev pub max_time : ℕ
max_time = 10_000

-- The milliseconds since the start when the clock is read, and what others do in the wait.
pub record WakeUp : Type 0 where
  pub elapsed : ℕ
  pub others : BufferMgr → BufferMgr

abbrev pub waiting_too_long : ℕ → Bool
waiting_too_long elapsed = ltb max_time elapsed

unfoldable pub pin : List WakeUp → BufferMgr → BlockId → Result (BufferMgr × ℕ)
unfolding try_to_pin
pin [] m blk = err starved
pin (w ∷ ws) m blk = do
  (m', found) ← try_to_pin m blk
  elim found [
    | some i ↦ ok (m', i)
    | none ↦ if waiting_too_long w.elapsed then err thrown else pin ws (w.others m') blk
  ]

-- `unpin`: a frame without pins is available again.
unfoldable pub unpin : BufferMgr → ℕ → Result BufferMgr
unpin m i = do
  b ← of_option (get_elem? m.pool i) fault
  let b' = unpin_buffer b
  ok (record m {
    pool = set m.pool i b';
    num_available = if is_pinned b' then m.num_available else m.num_available +ℤ pos 1;
  })

-- The loop of `flushAll` over the frames.
unfoldable pub flush_frames :
    FileMgr → LogMgr → ℤ → List Buffer → Result (FileMgr × LogMgr × List Buffer)
unfolding flush_buffer
flush_frames fm lm txnum [] = ok (fm, lm, [])
flush_frames fm lm txnum (b ∷ bs) = do
  (fm', lm', b') ← if b.txnum == txnum then flush_buffer fm lm b else ok (fm, lm, b)
  (fm'', lm'', bs') ← flush_frames fm' lm' txnum bs
  ok (fm'', lm'', b' ∷ bs')

unfoldable pub flush_all : BufferMgr → ℤ → Result BufferMgr
unfolding flush_frames
flush_all m txnum = do
  (fm, lm, pool) ← flush_frames m.fm m.lm txnum m.pool
  ok (record m { fm = fm; lm = lm; pool = pool })
