-- ===== src/Logging/Ahead.antt =====
-- The records that an iterator of a log still gives, one step at a time.
use mathlib.Core.Path.{subst}
use sample_db.Base.{
  ℕ, ◌<◌, ◌*◌, ◌≡◌, refl, sym, ap, ◌∙◌, List, [], ◌∷◌, ◌++◌, Str, str_eq, Bool, true, false, Option,
  none, some, pos, negsuc, ◌+ℤ◌, int_eq, ◌==◌, ok, guard, fault, >>=-eq-ok, ok-injective, Succeeds,
  Succeeds-map, arith, length, leb, if◌then◌else◌, find, put_same,
}
use sample_db.File.BlockId.{BlockId}
use sample_db.File.Page.{Page, get_int, get_bytes}
use sample_db.File.FileMgr.{FileMgr, contents_of, block_offset, get_file, read}
use sample_db.File.FileMgr.Blocks.{file_bytes}
use sample_db.Logging.{
  LogMgr, LogIterator, to_offset, move_to_block, previous_block, iterator, has_next, next,
}
use sample_db.Logging.Records.{Packed-le}
use sample_db.Logging.State.{Olds-same, records_of}
use sample_db.Logging.Append.{Logs}
use sample_db.Logging.Position.{IsAt, next-IsAt, next-IsAt_back}
use sample_db.Logging.Iterate.{more_here, more_back, none_left, iterator-IsAt}

pub record Ahead (fm : FileMgr) (name : Str) (it : LogIterator) (rs : List (List ℕ)) : Type 0 where
  pub cur : List (List ℕ)
  pub olds : List (List (List ℕ))
  pub is_at : IsAt fm name it cur olds
  pub all : cur ++ records_of olds ≡ rs

-- What `next` gives before record `r`.
abbrev pub Gives : Str → List ℕ → List (List ℕ) → FileMgr × LogIterator × List ℕ → Type 0
Gives name r rs x = Ahead x.0 name x.1 rs × (x.2 ≡ r)

head_of :
    {a b : List ℕ} {xs ys : List (List ℕ)}
    → ◌≡◌ {A = List (List ℕ)} (a ∷ xs) (b ∷ ys)
    → (a ≡ b) × (xs ≡ ys)
head_of e = (cc, cc)

pub Ahead-nil :
    (fm : FileMgr) (name : Str) (it : LogIterator) → Ahead fm name it [] → has_next fm it ≡ false
Ahead-nil fm name it h = go h.cur h.olds h.is_at h.all
  where
    go :
        (cur : List (List ℕ)) (olds : List (List (List ℕ)))
        → IsAt fm name it cur olds
        → cur ++ records_of olds ≡ []
        → has_next fm it ≡ false
    go [] [] k e = none_left fm name it k
    go [] ([] ∷ olds) k e = absurd (omega (arith, k.older.1))
    go [] ((r ∷ rs) ∷ olds) k e = cc
    go (r ∷ rs) olds k e = cc

pub Ahead-cons :
    (fm : FileMgr) (name : Str) (it : LogIterator) (r : List ℕ) (rs : List (List ℕ))
    → Ahead fm name it (r ∷ rs)
    → (has_next fm it ≡ true) × Succeeds (Gives name r rs) (next fm it)
Ahead-cons fm name it r rs h = go h.cur h.olds h.is_at h.all
  where
    gives :
        (s : List ℕ) (cur : List (List ℕ)) (olds : List (List (List ℕ)))
        → ◌≡◌ {A = List (List ℕ)} (s ∷ cur ++ records_of olds) (r ∷ rs)
        → Succeeds
            (λ (x : FileMgr × LogIterator × List ℕ). IsAt x.0 name x.1 cur olds × (x.2 ≡ s))
            (next fm it)
        → Succeeds (Gives name r rs) (next fm it)
    gives s cur olds e k = Succeeds-map _ (Gives name r rs) (next fm it) k λ x g.
        (record { cur = cur; olds = olds; is_at = g.0; all = (head_of e).1 }, g.1 ∙ (head_of e).0)

    go :
        (cur : List (List ℕ)) (olds : List (List (List ℕ)))
        → IsAt fm name it cur olds
        → cur ++ records_of olds ≡ r ∷ rs
        → (has_next fm it ≡ true) × Succeeds (Gives name r rs) (next fm it)
    go (s ∷ cur) olds k e =
        (more_here fm name it s cur olds k, gives s cur olds e (next-IsAt fm name it s cur olds k))
    go [] [] k e = cc
    go [] ([] ∷ olds) k e = absurd (omega (arith, k.older.1))
    go [] ((s ∷ cur) ∷ olds) k e = (
      more_back fm name it (s ∷ cur) olds k,
      gives s cur olds e (next-IsAt_back fm name it s cur olds k),
    )

-- The file of the log and the size of a block are what they were.
abbrev pub SameLog : Str → FileMgr → FileMgr → Type 0
SameLog name fm fm' = (fm'.block_size ≡ fm.block_size) × (file_bytes fm' name ≡ file_bytes fm name)

pub Ahead-same :
    (fm fm' : FileMgr) (name : Str) (it : LogIterator) (rs : List (List ℕ))
    → SameLog name fm fm'
    → Ahead fm name it rs
    → Ahead fm' name it rs
Ahead-same fm fm' name it rs s h = record {
  cur = h.cur;
  olds = h.olds;
  is_at = record {
    at = h.is_at.at;
    count = h.is_at.count;
    blk = h.is_at.blk;
    curr = h.is_at.curr;
    size = rw (s.0) h.is_at.size;
    packed = h.is_at.packed;
    file = rw (s.1, s.0) h.is_at.file;
    inside = h.is_at.inside;
    older = Olds-same fm fm' name h.olds (s.0) (λ n lt. rw (s.1, s.0) refl) h.is_at.older;
  };
  all = h.all;
}

-- The iterator of a log stands before all of its records.
pub iterator-Ahead :
    (fm : FileMgr) (lm : LogMgr) (rs : List (List ℕ))
    → Logs fm lm rs
    → Succeeds
        (λ (x : FileMgr × LogMgr × LogIterator). Ahead x.0 lm.log_file_name x.2 rs)
        (iterator fm lm)
iterator-Ahead fm lm rs h =
    Succeeds-map _ _ (iterator fm lm) (iterator-IsAt fm lm rs h)
      λ x g. record { cur = h.cur; olds = h.olds; is_at = g; all = h.all }

-- A file that is there stays as it is when one of its blocks is read.
read-files :
    (fm : FileMgr) (blk : BlockId) (p : Page) (bytes : List ℕ) (x : FileMgr × Page)
    → find blk.file_name fm.files ≡ some bytes
    → read fm blk p ≡ ok x
    → x.0 ≡ fm
unfolding read get_file
read-files fm blk p bytes x h e =
    let (offset, d, f) = >>=-eq-ok (block_offset fm blk.number) _ e in
    let (done, g, k) = >>=-eq-ok (guard (leb fm.block_size (length p.bytes)) fault) _ f in
    ap (λ (y : FileMgr × Page). y.0) (sym (ok-injective k))
    ∙ ap (λ files. record fm { files = files }) (rw h (put_same blk.file_name bytes fm.files h))

previous_block-files :
    (fm : FileMgr) (it : LogIterator) (bytes : List ℕ) (x : FileMgr × LogIterator)
    → find it.blk.file_name fm.files ≡ some bytes
    → previous_block fm it ≡ ok x
    → x.0 ≡ fm
unfolding previous_block move_to_block
previous_block-files fm it bytes x h e = go (it.curr_pos == pos fm.block_size) e
  where
    back : BlockId
    back = record it.blk { number = it.blk.number +ℤ negsuc 0 }

    go : (b : Bool) → (if b then move_to_block fm it back else ok (fm, it)) ≡ ok x → x.0 ≡ fm
    go false e = ap (λ (y : FileMgr × LogIterator). y.0) (sym (ok-injective e))
    go true e =
        let (y, d, f) = >>=-eq-ok (read fm back it.page) _ e in
        let (boundary, g, k) = >>=-eq-ok (get_int y.1 0) _ f in
        ap (λ (y : FileMgr × LogIterator). y.0) (sym (ok-injective k))
        ∙ read-files fm back it.page bytes y h d

next-files :
    (fm : FileMgr) (it : LogIterator) (bytes : List ℕ) (x : FileMgr × LogIterator × List ℕ)
    → find it.blk.file_name fm.files ≡ some bytes
    → next fm it ≡ ok x
    → x.0 ≡ fm
unfolding next
next-files fm it bytes x h e =
    let (y, d, f) = >>=-eq-ok (previous_block fm it) _ e in
    let (at, g, k) = >>=-eq-ok (to_offset y.1.curr_pos) _ f in
    let (r, m, n) = >>=-eq-ok (get_bytes y.1.page at) _ k in
    ap (λ (y : FileMgr × LogIterator × List ℕ). y.0) (sym (ok-injective n))
    ∙ previous_block-files fm it bytes y h d

is_found : (o : Option (List ℕ)) → 0 < length (contents_of o) → (bytes : List ℕ) × (o ≡ some bytes)
is_found none h = absurd (omega arith)
is_found (some bytes) h = (bytes, refl)

-- A block of a log with a record has bytes.
Ahead-positive :
    (fm : FileMgr) (name : Str) (it : LogIterator) (r : List ℕ) (rs : List (List ℕ))
    → Ahead fm name it (r ∷ rs)
    → 0 < fm.block_size
Ahead-positive fm name it r rs h = go h.cur h.olds h.is_at h.all
  where
    go :
        (cur : List (List ℕ)) (olds : List (List (List ℕ)))
        → IsAt fm name it cur olds
        → cur ++ records_of olds ≡ r ∷ rs
        → 0 < fm.block_size
    go (s ∷ cur) olds k e = omega (arith, k.packed.1, k.size)
    go [] [] k e = cc
    go [] (ss ∷ olds) k e =
        let page = k.older.0 in
        omega (arith, page.room, page.size, Packed-le _ page.boundary ss page.packed)

-- Reading the log changes no file.
pub next-Ahead_files :
    (fm : FileMgr) (name : Str) (it : LogIterator) (r : List ℕ) (rs : List (List ℕ))
    (x : FileMgr × LogIterator × List ℕ)
    → Ahead fm name it (r ∷ rs)
    → next fm it ≡ ok x
    → x.0 ≡ fm
unfolding file_bytes
next-Ahead_files fm name it r rs x h e =
    let lt : 0 < fm.block_size = Ahead-positive fm name it r rs h in
    let long : 0 < length (contents_of (find name fm.files)) =
      subst (λ n. 0 < n) (sym h.is_at.file)
        (positive h.is_at.count fm.block_size (omega (arith, h.is_at.inside)) lt) in
    let (bytes, there) = is_found (find name fm.files) long in
    next-files fm it bytes x
      (subst (λ (k : BlockId). find k.file_name fm.files ≡ some bytes) (sym h.is_at.blk) there) e
  where
    positive : (a b : ℕ) → 0 < a → 0 < b → 0 < a * b
    positive a b h k = grind arith
