-- ===== src/Tx/BufferList.antt =====
-- tx/BufferList.cpp: the buffers that a transaction has pinned, a block as often as it was pinned.
pub mod Tracks
use sample_db.Base.{
  ℕ, List, [], ◌∷◌, ◌++◌, Bool, true, false, ◌||◌, ◌==◌, Option, none, some, Result, ok, fault,
  of_option, ◌>>=◌, find, put, erase, if◌then◌else◌,
}
use sample_db.File.BlockId.{BlockId, block_eq}
use sample_db.Buffer.Pool.{BufferMgr, WakeUp}
use sample_db.Buffer.Pool

-- A buffer is its index in the pool.
pub record BufferList : Type 0 where
  pub buffers : List (BlockId × ℕ)
  pub pinned : List BlockId

-- `std::find(...) != end()` on the pinned blocks.
unfoldable pub is_there : BlockId → List BlockId → Bool
is_there blk [] = false
is_there blk (b ∷ bs) = let later = is_there blk bs in b == blk || later

-- `_pinned.erase(std::find(...))`.
unfoldable pub erase_first : BlockId → List BlockId → List BlockId
erase_first blk [] = []
erase_first blk (b ∷ bs) = let later = erase_first blk bs in if b == blk then bs else b ∷ later

-- `getBuffer`: a block without a buffer is a null pointer.
unfoldable pub get_buffer : BufferList → BlockId → Result ℕ
get_buffer l blk = of_option (find blk l.buffers) fault

unfoldable pub pin :
    List WakeUp → BufferMgr → BufferList → BlockId → Result (BufferMgr × BufferList)
pin ws m l blk = do
  (m', i) ← Pool.pin ws m blk
  ok (m', record { buffers = put blk i l.buffers; pinned = l.pinned ++ blk ∷ [] })

-- The list after the buffer was unpinned.
abbrev pub without : BufferList → BlockId → BufferList
without l blk =
    let pinned' = erase_first blk l.pinned in
    record {
      buffers = if is_there blk pinned' then l.buffers else erase blk l.buffers;
      pinned = pinned';
    }

-- `unpin`, once the block was looked up: a block without a buffer was unpinned before.
unfoldable pub unpin_found :
    BufferMgr → BufferList → BlockId → Option ℕ → Result (BufferMgr × BufferList)
unpin_found m l blk none = ok (m, l)
unpin_found m l blk (some i) = do m' ← Pool.unpin m i; ok (m', without l blk)

abbrev pub unpin : BufferMgr → BufferList → BlockId → Result (BufferMgr × BufferList)
unpin m l blk = unpin_found m l blk (find blk l.buffers)

-- The loop of `unpinAll`.
unfoldable pub unpin_each : BufferMgr → BufferList → List BlockId → Result BufferMgr
unpin_each m l [] = ok m
unpin_each m l (blk ∷ blks) = do
  i ← of_option (find blk l.buffers) fault
  m' ← Pool.unpin m i
  unpin_each m' l blks

unfoldable pub unpin_all : BufferMgr → BufferList → Result (BufferMgr × BufferList)
unpin_all m l = do m' ← unpin_each m l l.pinned; ok (m', record { buffers = []; pinned = [] })
