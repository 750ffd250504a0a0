-- ===== src/File/FileMgr/Whole.antt =====
-- Files grow by whole blocks, and `append` adds one zeroed block at the end.
use mathlib.Core.Path.{subst}
use native.Mathlib.Nat.{mul-div_cancel}
use sample_db.Base.{
  ℕ, ◌+◌, ◌*◌, ◌<◌, ◌≡◌, ◌≢◌, refl, ap, ◌∙◌, List, Str, pos, length, slice, replicate,
  length-replicate, if◌then◌else◌, find, put, find-put, str_eq, ◌==◌, eq_iff, eq_self, arith,
}
use sample_db.File.Page.{Page}
use sample_db.File.FileMgr.Disk.{
  file_write, slice-file_write_self, length-file_write_end, length-file_write_inside,
  slice-file_write_before,
}
use sample_db.File.FileMgr.{FileMgr, append, file_length, contents_of}
use sample_db.File.FileMgr.Blocks.{
  file_bytes, block_bytes, HasBlock, FitsBlock, stored, stored_self, block_order,
}

-- The file has this many whole blocks and no more bytes.
abbrev pub HasBlocks : FileMgr → Str → ℕ → Type 0
HasBlocks fm name k = length (file_bytes fm name) ≡ k * fm.block_size

pub file_length_blocks :
    (fm : FileMgr) (name : Str) (k : ℕ)
    → 0 < fm.block_size
    → HasBlocks fm name k
    → file_length fm name ≡ k
unfolding file_length file_bytes
file_length_blocks fm name k s h = rw h (mul-div_cancel k s)

abbrev zeros : FileMgr → List ℕ
zeros fm = replicate fm.block_size 0

-- The manager once the file is open.
abbrev pub opened : FileMgr → Str → FileMgr
opened fm name = record fm { files = put name (file_bytes fm name) fm.files }

opened_length :
    (fm : FileMgr) (name : Str) (k : ℕ)
    → 0 < fm.block_size
    → HasBlocks fm name k
    → file_length (opened fm name) name ≡ k
opened_length fm name k s h = file_length_blocks (opened fm name) name k s (same ∙ h)
  where
    same : length (file_bytes (opened fm name) name) ≡ length (file_bytes fm name)
    same =
        unfold file_bytes in
        ap (λ o. length (contents_of o))
          (find-put name name (contents_of (find name fm.files)) fm.files)
        ∙ rw (eq_self name)

abbrev pub appended : FileMgr → Str → ℕ → FileMgr
appended fm name k = record fm {
  files =
      put name (file_write (file_bytes fm name) (k * fm.block_size) (replicate fm.block_size 0))
        (opened fm name).files;
}

pub append-eq :
    (fm : FileMgr) (name : Str) (k : ℕ)
    → 0 < fm.block_size
    → HasBlocks fm name k
    → append fm name ≡ (appended fm name k, record { file_name = name; number = pos k })
unfolding append file_bytes
append-eq fm name k s h =
    ap (λ (n : ℕ). (appended fm name n, record { file_name = name; number = pos n }))
      (opened_length fm name k s h)

file_bytes-appended :
    (fm : FileMgr) (name other : Str) (k : ℕ)
    → file_bytes (appended fm name k) other ≡ (
        if name == other
        then file_write (file_bytes fm name) (k * fm.block_size) (replicate fm.block_size 0)
        else file_bytes fm other)
unfolding file_bytes
file_bytes-appended fm name other k = ground (
  arith,
  eq_iff name other,
  find-put name other
      (file_write (contents_of (find name fm.files)) (k * fm.block_size)
        (replicate fm.block_size 0))
      (opened fm name).files,
  find-put name other (contents_of (find name fm.files)) fm.files,
)

-- Appending to a file of `k` blocks returns block `k`, a zeroed one, and the file then has
-- `k + 1` blocks.
pub append-HasBlocks :
    (fm : FileMgr) (name : Str) (k : ℕ)
    → 0 < fm.block_size
    → HasBlocks fm name k
    → ((append fm name).1 ≡ record { file_name = name; number = pos k })
      × HasBlocks (append fm name).0 name (k + 1)
      × (block_bytes (append fm name).0 name k ≡ replicate fm.block_size 0)
append-HasBlocks fm name k s h = rw (append-eq fm name k s h) (
  refl,
  rw bytes (length-file_write_end old at zeros (omega (arith, full)) ∙ omega (arith, full)),
  rw bytes (
      subst (λ n. slice at n (file_write old at zeros) ≡ zeros) full
        (slice-file_write_self old at zeros)),
)
  where
    zeros : List ℕ
    zeros = replicate fm.block_size 0

    old : List ℕ
    old = file_bytes fm name

    at : ℕ
    at = k * fm.block_size

    full : length zeros ≡ fm.block_size
    full = length-replicate fm.block_size 0

    bytes : file_bytes (appended fm name k) name ≡ file_write old at zeros
    bytes = file_bytes-appended fm name name k ∙ rw (eq_self name)

-- Appending to one file keeps the blocks of every other.
pub append-HasBlocks_ne :
    (fm : FileMgr) (name other : Str) (k m : ℕ)
    → 0 < fm.block_size
    → HasBlocks fm name k
    → HasBlocks fm other m
    → name ≢ other
    → HasBlocks (append fm name).0 other m
append-HasBlocks_ne fm name other k m s h g d =
    rw (append-eq fm name k s h)
      (ap length (file_bytes-appended fm name other k ∙ ground (arith, eq_iff name other)) ∙ g)

-- Nor does it change the blocks that the file has.
pub append-block_bytes :
    (fm : FileMgr) (name : Str) (k m : ℕ)
    → 0 < fm.block_size
    → HasBlocks fm name k
    → m < k
    → block_bytes (append fm name).0 name m ≡ block_bytes fm name m
append-block_bytes fm name k m s h lt = rw (append-eq fm name k s h) (
    ap (slice (m * fm.block_size) fm.block_size)
      (file_bytes-appended fm name name k ∙ rw (eq_self name))
    ∙ slice-file_write_before (file_bytes fm name) (k * fm.block_size) (replicate fm.block_size 0)
        (m * fm.block_size) fm.block_size (block_order m k fm.block_size lt)
        (rw h (block_order m k fm.block_size lt)))

-- Writing one of the file's blocks keeps their number.
pub stored-HasBlocks :
    (fm : FileMgr) (name : Str) (n k : ℕ) (p : Page)
    → FitsBlock fm p
    → HasBlocks fm name k
    → n < k
    → HasBlocks (stored fm name n p) name k
stored-HasBlocks fm name n k p f h lt = rw (stored_self fm name n p) (
    length-file_write_inside (file_bytes fm name) (n * fm.block_size) p.bytes
      (rw (f, h) (block_order n k fm.block_size lt))
    ∙ h)

pub HasBlock-HasBlocks :
    (fm : FileMgr) (name : Str) (n k : ℕ) → HasBlocks fm name k → n < k → HasBlock fm name n
HasBlock-HasBlocks fm name n k h lt = rw h (block_order n k fm.block_size lt)
