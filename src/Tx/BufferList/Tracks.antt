-- ===== src/Tx/BufferList/Tracks.antt =====
-- The list of a transaction's buffers: a block has a buffer exactly while it has a pin.
use sample_db.Base.{
  ℕ, ◌≡◌, refl, ap, List, [], ◌∷◌, ◌++◌, Bool, true, false, ◌||◌, ◌==◌, eq_iff, Option, none, some,
  ok, ok-injective, >>=-eq-ok, find, put, find-put, find-erase, arith,
}
use mathlib.Core.Path.{subst}
use sample_db.File.BlockId.{BlockId, block_eq}
use sample_db.Buffer.Pool.{BufferMgr, WakeUp}
use sample_db.Buffer.Pool
use sample_db.Tx.BufferList.{BufferList, is_there, erase_first, without, pin, unpin, unpin_found}

abbrev pub has : Option ℕ → Bool
has none = false
has (some i) = true

abbrev pub Tracks : BufferList → Type 0
Tracks l = (b : BlockId) → has (find b l.buffers) ≡ is_there b l.pinned

pub is_there-append :
    (b blk : BlockId) (bs : List BlockId)
    → is_there b (bs ++ blk ∷ []) ≡ (is_there b bs || blk == b)
unfolding is_there
is_there-append b blk [] = ground arith
is_there-append b blk (c ∷ bs) = ground (arith, is_there-append b blk bs)

is_there-erase_first :
    (b blk : BlockId) (bs : List BlockId)
    → (blk == b) ≡ false
    → is_there b (erase_first blk bs) ≡ is_there b bs
unfolding is_there erase_first
is_there-erase_first b blk [] d = refl
is_there-erase_first b blk (c ∷ bs) d =
    ground (arith, is_there-erase_first b blk bs d, eq_iff c blk, eq_iff c b, eq_iff blk b)

-- When a pin succeeds, a block still has a buffer exactly if it has a pin.
pub pin-Tracks :
    (ws : List WakeUp) (m m' : BufferMgr) (l l' : BufferList) (blk : BlockId)
    → Tracks l
    → pin ws m l blk ≡ ok (m', l')
    → Tracks l'
unfolding pin
pin-Tracks ws m m' l l' blk h e b =
    let ((n, i), d, f) = >>=-eq-ok (Pool.pin ws m blk) _ e in
    subst (λ (k : BufferList). has (find b k.buffers) ≡ is_there b k.pinned)
      (ap (λ (x : BufferMgr × BufferList). x.1) (ok-injective f)) (pinned i)
  where
    pinned : (i : ℕ) → has (find b (put blk i l.buffers)) ≡ is_there b (l.pinned ++ blk ∷ [])
    pinned i = ground (arith, find-put blk b i l.buffers, is_there-append b blk l.pinned, h b)

without-Tracks :
    (l : BufferList) (blk : BlockId) (i : ℕ)
    → Tracks l
    → find blk l.buffers ≡ some i
    → Tracks (without l blk)
without-Tracks l blk i h e b = ground (
  arith,
  find-erase blk b l.buffers,
  is_there-erase_first b blk l.pinned,
  h b,
  h blk,
  eq_iff blk b,
)

-- When an unpin returns, a block still has a buffer exactly if it has a pin left.
pub unpin-Tracks :
    (m m' : BufferMgr) (l l' : BufferList) (blk : BlockId)
    → Tracks l
    → unpin m l blk ≡ ok (m', l')
    → Tracks l'
unfolding unpin_found
unpin-Tracks m m' l l' blk h = go (find blk l.buffers) refl
  where
    go : (o : Option ℕ) → find blk l.buffers ≡ o → unpin_found m l blk o ≡ ok (m', l') → Tracks l'
    go none d e = subst Tracks (ap (λ (x : BufferMgr × BufferList). x.1) (ok-injective e)) h
    go (some i) d e =
        let (n, g, f) = >>=-eq-ok (Pool.unpin m i) _ e in
        subst Tracks (ap (λ (x : BufferMgr × BufferList). x.1) (ok-injective f))
          (without-Tracks l blk i h d)
