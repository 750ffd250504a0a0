-- ===== src/File/FileMgr/OnDisk.antt =====
-- A block that holds a page, and what writes do with it.
use mathlib.Core.Path.{subst}
use sample_db.Base.{ℕ, ◌≡◌, ◌≢◌, refl, sym, ap, ◌∙◌, Str, ℤ, pos, negsuc, Succeeds}
use sample_db.File.BlockId.{BlockId}
use sample_db.File.Page.{Page}
use sample_db.File.FileMgr.{FileMgr, write}
use sample_db.File.FileMgr.Blocks.{
  FitsBlock, HasBlock, block_bytes, write-eq, HasBlock-stored_self, block_bytes-stored_self,
  block_bytes-stored_ne,
}
use sample_db.File.FileMgr.Total.{IsNatural}

-- The file has the whole block, and its bytes are those of the page.
abbrev pub OnDisk : FileMgr → BlockId → Page → Type 0
OnDisk fm blk p =
    (n : ℕ) × (blk.number ≡ pos n)
    × HasBlock fm blk.file_name n
    × (block_bytes fm blk.file_name n ≡ p.bytes)

-- Pages in other blocks than this one stay on disk.
abbrev pub Keeps : BlockId → FileMgr → FileMgr → Type 0
Keeps blk fm fm' = (b : BlockId) (q : Page) → blk ≢ b → OnDisk fm b q → OnDisk fm' b q

-- After a write: the page is on disk, and other blocks stay.
abbrev pub Written : FileMgr → BlockId → Page → FileMgr → Type 0
Written fm blk p fm' = (fm'.block_size ≡ fm.block_size) × OnDisk fm' blk p × Keeps blk fm fm'

block-eq :
    (name : Str) (n m : ℕ) (b : BlockId)
    → name ≡ b.file_name
    → n ≡ m
    → b.number ≡ pos m
    → ◌≡◌ {A = BlockId} (record { file_name = name; number = pos n }) b
block-eq name n m b e f g =
    subst (λ k. ◌≡◌ {A = BlockId} (record { file_name = k; number = pos n }) b) (sym e)
      (ap (λ (k : ℤ). record { file_name = b.file_name; number = k }) (ap pos f ∙ sym g))

write_at-Written :
    (fm : FileMgr) (name : Str) (n : ℤ) (p : Page)
    → IsNatural n
    → FitsBlock fm p
    → Succeeds
        (Written fm (record { file_name = name; number = n }) p)
        (write fm (record { file_name = name; number = n }) p)
write_at-Written fm name (pos n) p i h = rw (write-eq fm name n p h) (
  refl,
  (n, refl, HasBlock-stored_self fm name n p h, block_bytes-stored_self fm name n p h),
  λ b q ne (m, e, has, same).
      let (kept, there) =
        block_bytes-stored_ne fm name b.file_name n m p h has
          (λ (f, g). ne (block-eq name n m b f g e)) in
      (m, e, there, kept ∙ same),
)
write_at-Written fm name (negsuc n) p i h = cc

pub write-Written :
    (fm : FileMgr) (blk : BlockId) (p : Page)
    → IsNatural blk.number
    → FitsBlock fm p
    → Succeeds (Written fm blk p) (write fm blk p)
write-Written fm blk p i h = write_at-Written fm blk.file_name blk.number p i h
