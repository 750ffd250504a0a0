-- ===== src/File/FileMgr/Blocks.antt =====
-- Blocks of a file: what is written is read back, other blocks stay, and files keep whole blocks.
use sample_db.Base.{
  ℕ, ◌+◌, ◌*◌, ◌≤◌, ◌<◌, ◌≡◌, ◌≢◌, refl, ap, ◌∙◌, List, Str, pos, ok, ◌>>=◌, length, slice,
  splice_whole, take, take_length, if◌then◌else◌, find, put, find-put, str_eq, ◌==◌, eq_iff,
  eq_self, arith, Bool-cases, inl, inr, length-slice,
}
use native.Mathlib.Decide.{dec_lt}
use mathlib.Core.Path.{subst}
use sample_db.File.Page.{Page}
use sample_db.File.FileMgr.Disk.{
  file_write, slice-file_write_self, slice-file_write_before, drop-file_write_after,
  length-file_write_ge,
}
use sample_db.File.FileMgr.{FileMgr, write, read, contents_of}

-- The bytes of a file, none if it is missing.
unfoldable pub file_bytes : FileMgr → Str → List ℕ
file_bytes fm name = contents_of (find name fm.files)

-- Block `n` of a file: `block_size` bytes.
abbrev pub block_bytes : FileMgr → Str → ℕ → List ℕ
block_bytes fm name n = slice (n * fm.block_size) fm.block_size (file_bytes fm name)

-- A page of one block.
abbrev pub FitsBlock : FileMgr → Page → Type 0
FitsBlock fm p = length p.bytes ≡ fm.block_size

-- The manager after a page went to block `n` of a file.
abbrev pub stored : FileMgr → Str → ℕ → Page → FileMgr
stored fm name n p = record fm {
  files =
      put name (file_write (file_bytes fm name) (n * fm.block_size) p.bytes)
        (put name (file_bytes fm name) fm.files);
}

pub write-eq :
    (fm : FileMgr) (name : Str) (n : ℕ) (p : Page)
    → FitsBlock fm p
    → write fm (record { file_name = name; number = pos n }) p ≡ ok (stored fm name n p)
unfolding write file_bytes
write-eq fm name n p h =
    ground (arith, subst (λ (k : ℕ). take k p.bytes ≡ p.bytes) h (take_length p.bytes))

pub file_bytes-stored :
    (fm : FileMgr) (name other : Str) (n : ℕ) (p : Page)
    → file_bytes (stored fm name n p) other ≡ (
        if name == other
        then file_write (file_bytes fm name) (n * fm.block_size) p.bytes
        else file_bytes fm other)
unfolding file_bytes
file_bytes-stored fm name other n p = ground (
  arith,
  eq_iff name other,
  find-put name other (file_write (contents_of (find name fm.files)) (n * fm.block_size) p.bytes)
      (put name (contents_of (find name fm.files)) fm.files),
  find-put name other (contents_of (find name fm.files)) fm.files,
)

pub stored_self :
    (fm : FileMgr) (name : Str) (n : ℕ) (p : Page)
    → file_bytes (stored fm name n p) name
      ≡ file_write (file_bytes fm name) (n * fm.block_size) p.bytes
stored_self fm name n p = file_bytes-stored fm name name n p ∙ rw (eq_self name)

-- A block that lies in the file whole.
abbrev pub HasBlock : FileMgr → Str → ℕ → Type 0
HasBlock fm name n = n * fm.block_size + fm.block_size ≤ length (file_bytes fm name)

pub read-eq :
    (fm : FileMgr) (name : Str) (n : ℕ) (q : Page)
    → FitsBlock fm q
    → HasBlock fm name n
    → read fm (record { file_name = name; number = pos n }) q
      ≡ ok (
        record fm { files = put name (file_bytes fm name) fm.files },
        record { bytes = block_bytes fm name n },
      )
unfolding read file_bytes
read-eq fm name n q h k = ground (
  arith,
  length-slice (contents_of (find name fm.files)) (n * fm.block_size) fm.block_size k,
  splice_whole q.bytes (slice (n * fm.block_size) fm.block_size (contents_of (find name fm.files))),
)

pub block_bytes-stored_self :
    (fm : FileMgr) (name : Str) (n : ℕ) (p : Page)
    → FitsBlock fm p
    → block_bytes (stored fm name n p) name n ≡ p.bytes
block_bytes-stored_self fm name n p h =
    ap (slice (n * fm.block_size) fm.block_size) (stored_self fm name n p)
    ∙ subst (λ k. slice (n * fm.block_size) k written ≡ p.bytes) h
        (slice-file_write_self (file_bytes fm name) (n * fm.block_size) p.bytes)
  where
    written : List ℕ
    written = file_write (file_bytes fm name) (n * fm.block_size) p.bytes

pub HasBlock-stored_self :
    (fm : FileMgr) (name : Str) (n : ℕ) (p : Page)
    → FitsBlock fm p
    → HasBlock (stored fm name n p) name n
HasBlock-stored_self fm name n p h =
    rw (stored_self fm name n p)
      (omega (arith, length-file_write_ge (file_bytes fm name) (n * fm.block_size) p.bytes))

-- A page that was written to a block is what a read of that block gives, whatever the buffer held.
pub read-write :
    (fm : FileMgr) (name : Str) (n : ℕ) (p q : Page)
    → FitsBlock fm p
    → FitsBlock fm q
    → (do
      fm' ← write fm (record { file_name = name; number = pos n }) p
      (fm'', r) ← read fm' (record { file_name = name; number = pos n }) q
      ok r)
      ≡ ok p
read-write fm name n p q h k = rw (write-eq fm name n p h) (
    rw (read-eq (stored fm name n p) name n q k (HasBlock-stored_self fm name n p h))
      (ap ok (ap (λ b. record { bytes = b }) (block_bytes-stored_self fm name n p h))))

pub block_order : (n m s : ℕ) → n < m → n * s + s ≤ m * s
block_order n m s h = grind arith

-- Writing one block of a list of bytes leaves the others.
pub slice-file_write_ne :
    (xs ds : List ℕ) (n m s : ℕ)
    → length ds ≡ s
    → m * s + s ≤ length xs
    → n ≢ m
    → slice (m * s) s (file_write xs (n * s) ds) ≡ slice (m * s) s xs
slice-file_write_ne xs ds n m s h b d = elim (dec_lt n m) [
  | yes lt ↦ ap (take s) (drop-file_write_after xs (n * s) ds (m * s) (rw h (block_order n m s lt)))
  | no ge ↦ slice-file_write_before xs (n * s) ds (m * s) s (block_order m n s (omega arith)) b
]

pub block_bytes-stored_ne :
    (fm : FileMgr) (name other : Str) (n m : ℕ) (p : Page)
    → FitsBlock fm p
    → HasBlock fm other m
    → ((name ≡ other) × (n ≡ m) → ⊥)
    → (block_bytes (stored fm name n p) other m ≡ block_bytes fm other m)
      × HasBlock (stored fm name n p) other m
block_bytes-stored_ne fm name other n m p h b d = elim (Bool-cases (name == other)) [
  | inl same ↦
      let e = (eq_iff name other).0 same in
      rw (file_bytes-stored fm name other n p, same, e)
        (
          slice-file_write_ne (file_bytes fm other) p.bytes n m fm.block_size h b (λ q. d (e, q)),
          omega (arith, length-file_write_ge (file_bytes fm other) (n * fm.block_size) p.bytes),
        )
  | inr differ ↦ rw (file_bytes-stored fm name other n p, differ) (refl, b)
]

-- A write of one block leaves every other block that is there, of this file or another.
pub read-write_ne :
    (fm : FileMgr) (name other : Str) (n m : ℕ) (p q : Page)
    → FitsBlock fm p
    → FitsBlock fm q
    → HasBlock fm other m
    → ((name ≡ other) × (n ≡ m) → ⊥)
    → (do
      fm' ← write fm (record { file_name = name; number = pos n }) p
      (fm'', r) ← read fm' (record { file_name = other; number = pos m }) q
      ok r)
      ≡ (do (fm'', r) ← read fm (record { file_name = other; number = pos m }) q; ok r)
read-write_ne fm name other n m p q h k b d =
    let (same, has) = block_bytes-stored_ne fm name other n m p h b d in
    rw (write-eq fm name n p h) (
      rw (read-eq (stored fm name n p) other m q k has)
        (rw (read-eq fm other m q k b) (ap ok (ap (λ bs. record { bytes = bs }) same))))
