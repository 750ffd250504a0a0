-- ===== src/Buffer/Pool/Frames.antt =====
-- Facts about the list of frames: the search for one, and what replacing one changes.
use sample_db.Base.{
  ℕ, zero, suc, ◌+◌, ◌≡◌, refl, sym, ap, ◌∙◌, List, [], ◌∷◌, Bool, true, false, none, some,
  get_elem?, set, if◌then◌else◌, arith,
}
use mathlib.Core.Path.{subst}
use sample_db.File.BlockId.{BlockId, block_beq, block_beq_iff}
use sample_db.File.FileMgr.Total.{IsNatural}
use sample_db.Buffer.Frame.{Buffer, is_pinned}
use sample_db.Buffer.Pool.{first_index}

abbrev pub AllFrames : (Buffer → Type 0) → List Buffer → Type 0
AllFrames P [] = Unit {0}
AllFrames P (b ∷ bs) = P b × AllFrames P bs

some_frame : {a b : Buffer} → some a ≡ some b → a ≡ b
some_frame e = cc

pub AllFrames-get :
    (P : Buffer → Type 0) (bs : List Buffer) (i : ℕ) (b : Buffer)
    → AllFrames P bs
    → get_elem? bs i ≡ some b
    → P b
AllFrames-get P [] i b a e = cc
AllFrames-get P (x ∷ bs) zero b a e = subst P (some_frame e) a.0
AllFrames-get P (x ∷ bs) (suc i) b a e = AllFrames-get P bs i b a.1 e

pub AllFrames-set :
    (P : Buffer → Type 0) (bs : List Buffer) (i : ℕ) (c : Buffer)
    → AllFrames P bs
    → P c
    → AllFrames P (set bs i c)
AllFrames-set P [] i c a p = tt
AllFrames-set P (x ∷ bs) zero c a p = (p, a.1)
AllFrames-set P (x ∷ bs) (suc i) c a p = (a.0, AllFrames-set P bs i c a.1 p)

pub get_elem?-set_self :
    (bs : List Buffer) (i : ℕ) (b c : Buffer)
    → get_elem? bs i ≡ some b
    → get_elem? (set bs i c) i ≡ some c
get_elem?-set_self [] i b c e = cc
get_elem?-set_self (x ∷ bs) zero b c e = refl
get_elem?-set_self (x ∷ bs) (suc i) b c e = get_elem?-set_self bs i b c e

-- The frame that the search finds passes the test; where it finds none, all fail it.
pub first_index-some :
    (test : Buffer → Bool) (bs : List Buffer) (i : ℕ)
    → first_index test bs ≡ some i
    → (b : Buffer) × (get_elem? bs i ≡ some b) × (test b ≡ true)
unfolding first_index
first_index-some test [] i e = cc
first_index-some test (x ∷ bs) zero e = (x, refl, ground arith)
first_index-some test (x ∷ bs) (suc i) e = first_index-some test bs i (ground arith)

pub first_index-none :
    (test : Buffer → Bool) (bs : List Buffer)
    → first_index test bs ≡ none
    → AllFrames (λ b. test b ≡ false) bs
unfolding first_index
first_index-none test [] e = tt
first_index-none test (x ∷ bs) e = (ground arith, first_index-none test bs (ground arith))

-- The frames without pins.
unfoldable pub unpinned : List Buffer → ℕ
unpinned [] = 0
unpinned (b ∷ bs) = let n = unpinned bs in if is_pinned b then n else suc n

abbrev pub free_one : Buffer → ℕ
free_one b = if is_pinned b then 0 else 1

pub unpinned-set :
    (bs : List Buffer) (i : ℕ) (b c : Buffer)
    → get_elem? bs i ≡ some b
    → unpinned (set bs i c) + free_one b ≡ unpinned bs + free_one c
unfolding unpinned
unpinned-set [] i b c e = cc
unpinned-set (x ∷ bs) zero b c e = ground arith
unpinned-set (x ∷ bs) (suc i) b c e = ground (arith, unpinned-set bs i b c e)

abbrev pub Absent : BlockId → List Buffer → Type 0
Absent blk bs = AllFrames (λ b. block_beq b.blk blk ≡ false) bs

-- No block of a file is in two frames.
abbrev pub DistinctBlocks : List Buffer → Type 0
DistinctBlocks [] = Unit {0}
DistinctBlocks (b ∷ bs) = (IsNatural b.blk.number → Absent b.blk bs) × DistinctBlocks bs

block_beq_sym : (a b : BlockId) → block_beq a b ≡ false → block_beq b a ≡ false
block_beq_sym a b h = ground (arith, block_beq_iff a b, block_beq_iff b a)

pub Absent-set :
    (blk : BlockId) (bs : List Buffer) (i : ℕ) (c : Buffer)
    → Absent blk bs
    → block_beq c.blk blk ≡ false
    → Absent blk (set bs i c)
Absent-set blk bs i c a h = AllFrames-set (λ b. block_beq b.blk blk ≡ false) bs i c a h

-- A frame that keeps its block, or takes one that no frame has, keeps the blocks distinct.
pub DistinctBlocks-keep :
    (bs : List Buffer) (i : ℕ) (b c : Buffer)
    → DistinctBlocks bs
    → get_elem? bs i ≡ some b
    → c.blk ≡ b.blk
    → DistinctBlocks (set bs i c)
DistinctBlocks-keep [] i b c d e h = tt
DistinctBlocks-keep (x ∷ bs) zero b c d e h =
    let same : x.blk ≡ c.blk = ap (λ f. f.blk) (some_frame e) ∙ sym h in
    (subst (λ k. IsNatural k.number → Absent k bs) same d.0, d.1)
DistinctBlocks-keep (x ∷ bs) (suc i) b c d e h = (
  (λ n. Absent-set x.blk bs i c (d.0 n) (
      subst (λ k. block_beq k x.blk ≡ false) (sym h)
        (AllFrames-get (λ f. block_beq f.blk x.blk ≡ false) bs i b (d.0 n) e))),
  DistinctBlocks-keep bs i b c d.1 e h,
)

pub DistinctBlocks-take :
    (bs : List Buffer) (i : ℕ) (c : Buffer)
    → DistinctBlocks bs
    → Absent c.blk bs
    → DistinctBlocks (set bs i c)
DistinctBlocks-take [] i c d a = tt
DistinctBlocks-take (x ∷ bs) zero c d a = ((λ _. a.1), d.1)
DistinctBlocks-take (x ∷ bs) (suc i) c d a = (
  (λ n. Absent-set x.blk bs i c (d.0 n) (block_beq_sym x.blk c.blk a.0)),
  DistinctBlocks-take bs i c d.1 a.1,
)
