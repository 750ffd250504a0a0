-- ===== src/File/FileMgr/Total.antt =====
-- Reads and writes of pages of one block, at blocks that are not negative, always return.
use sample_db.Base.{
  ℕ, ◌-◌, ◌≡◌, refl, ◌∙◌, false, Str, ℤ, pos, negsuc, int_lt, Succeeds, length, splice, replicate,
  length-splice, arith, le→leb, List,
}
use sample_db.File.BlockId.{BlockId}
use sample_db.File.Page.{Page}
use sample_db.File.FileMgr.{FileMgr, write, read, filled}
use sample_db.File.FileMgr.Blocks.{FitsBlock}

abbrev pub IsNatural : ℤ → Type 0
IsNatural n = int_lt n (pos 0) ≡ false

write_at :
    (fm : FileMgr) (name : Str) (n : ℤ) (p : Page)
    → IsNatural n
    → FitsBlock fm p
    → Succeeds
        (λ fm'. fm'.block_size ≡ fm.block_size)
        (write fm (record { file_name = name; number = n }) p)
unfolding write
write_at fm name (pos n) p i h = rw (le→leb fm.block_size (length p.bytes) (omega arith)) refl
write_at fm name (negsuc n) p i h = cc

pub write-Succeeds :
    (fm : FileMgr) (blk : BlockId) (p : Page)
    → IsNatural blk.number
    → FitsBlock fm p
    → Succeeds (λ fm'. fm'.block_size ≡ fm.block_size) (write fm blk p)
write-Succeeds fm blk p i h = write_at fm blk.file_name blk.number p i h

length-filled : (n : ℕ) (got buffer : List ℕ) → length (filled n got buffer) ≡ length buffer
length-filled n got buffer = ground (
  arith,
  length-splice buffer 0 got,
  length-splice (splice buffer 0 got) 0 (replicate (n - length got) 0),
)

read_at :
    (fm : FileMgr) (name : Str) (n : ℤ) (p : Page)
    → IsNatural n
    → FitsBlock fm p
    → Succeeds
        (λ r. (r.0.block_size ≡ fm.block_size) × FitsBlock fm r.1)
        (read fm (record { file_name = name; number = n }) p)
unfolding read
read_at fm name (pos n) p i h =
    rw (le→leb fm.block_size (length p.bytes) (omega arith))
      (refl, length-filled fm.block_size _ p.bytes ∙ h)
read_at fm name (negsuc n) p i h = cc

pub read-Succeeds :
    (fm : FileMgr) (blk : BlockId) (p : Page)
    → IsNatural blk.number
    → FitsBlock fm p
    → Succeeds (λ r. (r.0.block_size ≡ fm.block_size) × FitsBlock fm r.1) (read fm blk p)
read-Succeeds fm blk p i h = read_at fm blk.file_name blk.number p i h
