-- ===== src/Tx/RecoveryMgr/Undo.antt =====
-- The undo of an update record, on a block that is in the pool.
use mathlib.Core.Path.{subst}
use mathlib.Core.Option
use sample_db.Base.{
  ℕ, zero, suc, ◌+◌, ◌≤◌, ◌≡◌, refl, sym, ap, ◌∙◌, List, [], ◌∷◌, ◌++◌, true, some, ℤ, pos, negsuc,
  ok, ◌>>=◌, Succeeds, Succeeds-eq, length, length-splice, get_elem?, set, find, put, arith,
  find-put, eq_self, eq_iff, if◌then◌else◌, ◌+ℤ◌,
}
use sample_db.File.BlockId.{BlockId, block_eq, block_beq}
use sample_db.File.Page.{Page}
use sample_db.File.Page
use sample_db.File.Page.Words.{InInt32, encode_int}
use sample_db.File.Page.RoundTrip.{overwrite, set_int-fits, get_int-set_int}
use sample_db.Logging.Append.{Logs}
use sample_db.Logging.Room.{SizeIsRight}
use sample_db.Tx.LogRecord.RoundTrip.{length-set_int_bytes}
use sample_db.Buffer.Frame.{Buffer, set_modified, is_pinned, pin_buffer, unpin_buffer}
use sample_db.Buffer.Pool.{find_existing_buffer, try_to_pin, pin_found, pin_at, first_index}
use sample_db.Buffer.Pool
use sample_db.Buffer.Pool.Frames.{get_elem?-set_self}
use sample_db.Tx.LogRecord.{set_int_record, log_bytes}
use sample_db.Tx.BufferList.{is_there, erase_first, unpin_found, without}
use sample_db.Tx.BufferList
use sample_db.Tx.BufferList.Tracks.{is_there-append}
use sample_db.Tx.Transaction.{Transaction, Waits, pin, unpin, set_int, get_int}
use sample_db.Tx.Transaction
use sample_db.Tx.Transaction.Lookup.{
  Sees, Logged, with_log, modified-Sees, set_int-unlogged, set_int-Logged, get_int-Sees,
}
use sample_db.Tx.RecoveryMgr.{undo, undo_int}

-- The files, the log and the number of a transaction are what they were.
abbrev pub SameDisk : Transaction → Transaction → Type 0
SameDisk t t' = (t'.bm.fm ≡ t.bm.fm) × (t'.bm.lm ≡ t.bm.lm) × (t'.tx_num ≡ t.tx_num)

-- The transaction has a pin of the block, and the search of the pool finds its frame.
pub record InPool (t : Transaction) (blk : BlockId) (p : Page) : Type 0 where
  pub sees : Sees t blk p
  pub found : find_existing_buffer blk t.bm.pool ≡ find blk t.buffers.buffers
  pub pinned : is_there blk t.buffers.pinned ≡ true

-- With one more pin.
abbrev repinned : Transaction → BlockId → ℕ → Buffer → Transaction
repinned t blk i b = record t {
  bm = record t.bm {
    num_available = if is_pinned b then t.bm.num_available else t.bm.num_available +ℤ negsuc 0;
    pool = set t.bm.pool i (pin_buffer b);
  };
  buffers = record { buffers = put blk i t.buffers.buffers; pinned = t.buffers.pinned ++ blk ∷ [] };
}

module _ (env : Transaction → Waits) where
  pin-InPool :
      (t : Transaction) (blk : BlockId) (p : Page) (w : Pool.WakeUp) (ws : List Pool.WakeUp)
      (h : InPool t blk p)
      → (env t).for_buffer ≡ w ∷ ws
      → pin env t blk ≡ ok (repinned t blk h.sees.index h.sees.frame)
  unfolding pin BufferList.pin Pool.pin try_to_pin pin_found pin_at
  pin-InPool t blk p w ws h e = rw (e, h.found ∙ h.sees.listed, h.sees.there) refl

  repinned-Sees :
      (t : Transaction) (blk : BlockId) (p : Page) (h : InPool t blk p)
      → Sees (repinned t blk h.sees.index h.sees.frame) blk p
  repinned-Sees t blk p h = record {
    index = h.sees.index;
    frame = pin_buffer h.sees.frame;
    mine = h.sees.mine;
    listed = find-put blk blk h.sees.index t.buffers.buffers ∙ rw (eq_self blk) refl;
    there = get_elem?-set_self t.bm.pool h.sees.index h.sees.frame _ h.sees.there;
    assigned = h.sees.assigned;
    page = h.sees.page;
  }

erase_first-again :
    (blk : BlockId) (bs : List BlockId)
    → is_there blk bs ≡ true
    → is_there blk (erase_first blk (bs ++ blk ∷ [])) ≡ true
unfolding is_there erase_first
erase_first-again blk [] h = cc
erase_first-again blk (b ∷ bs) h =
    ground (arith, eq_iff b blk, eq_self blk, is_there-append blk blk bs, erase_first-again blk bs)

-- The buffer goes, and the transaction still has a pin of it.
unpin-Sees :
    (t : Transaction) (blk : BlockId) (p : Page) (h : Sees t blk p)
    → is_there blk (erase_first blk t.buffers.pinned) ≡ true
    → Succeeds (λ (t' : Transaction). Sees t' blk p × SameDisk t t') (unpin t blk)
unfolding unpin unpin_found Pool.unpin
unpin-Sees t blk p h e =
    rw (h.listed, h.there, e)
      (
        record {
          index = h.index;
          frame = unpin_buffer h.frame;
          mine = h.mine;
          listed = h.listed;
          there = get_elem?-set_self t.bm.pool h.index h.frame _ h.there;
          assigned = h.assigned;
          page = h.page;
        },
        (refl, refl, refl),
      )

module _ (env : Transaction → Waits) where
  -- Undoing an update record of an integer on a block that the transaction has locked exclusively
  -- and pinned, and that the pool finds, returns: the page has the value of the record, and neither
  -- the files nor the log change. The wait for a buffer is looked at once.
  pub undo-InPool :
      (t : Transaction) (blk : BlockId) (p q : Page) (n : ℤ) (at : ℕ) (old : ℤ) (w : Pool.WakeUp)
      (ws : List Pool.WakeUp)
      → InPool t blk p
      → (env t).for_buffer ≡ w ∷ ws
      → Page.set_int p at old ≡ ok q
      → Succeeds
          (λ (t' : Transaction). Sees t' blk q × SameDisk t t')
          (undo env (set_int_record n blk (pos at) old) t)
  unfolding undo undo_int set_modified
  undo-InPool t blk p q n at old w ws h e made =
      rw (pin-InPool env t blk p w ws h e, set_int-unlogged env t1 blk p q at old sees made)
        (unpin-Sees (Transaction.modified t1 sees.index sees.frame q (negsuc 0)) blk q
          (record {
            index = sees.index;
            frame = _;
            mine = sees.mine;
            listed = sees.listed;
            there = get_elem?-set_self t1.bm.pool sees.index sees.frame _ sees.there;
            assigned = sees.assigned;
            page = refl;
          })
          (erase_first-again blk t.buffers.pinned h.pinned))
    where
      t1 : Transaction
      t1 = repinned t blk h.sees.index h.sees.frame

      sees : Sees t1 blk p
      sees = repinned-Sees env t blk p h

-- A frame that keeps its block keeps its place in the search.
find_existing_buffer-set :
    (blk : BlockId) (bs : List Buffer) (i : ℕ) (b c : Buffer)
    → get_elem? bs i ≡ some b
    → c.blk ≡ b.blk
    → find_existing_buffer blk (set bs i c) ≡ find_existing_buffer blk bs
unfolding first_index
find_existing_buffer-set blk [] i b c e same = refl
find_existing_buffer-set blk (x ∷ bs) zero b c e same =
    ap
      (λ (k : BlockId).
        if block_beq k blk then some 0 else Option.map suc (find_existing_buffer blk bs))
      (same ∙ ap (λ (y : Buffer). y.blk) (some_injective e))
  where
    some_injective : some x ≡ some b → b ≡ x
    some_injective e = cc
find_existing_buffer-set blk (x ∷ bs) (suc i) b c e same =
    rw (find_existing_buffer-set blk bs i b c e same) refl

-- The block is still in the pool after a logged write.
Logged-InPool :
    (env : Transaction → Waits) (t t' : Transaction) (blk : BlockId) (p q : Page)
    (rs : List (List ℕ)) (h : InPool t blk p)
    → Logged env t blk p q h.sees rs t'
    → InPool t' blk q
unfolding set_modified
Logged-InPool env t t' blk p q rs h (fm, lm, lsn, same, g) =
    subst (λ (t' : Transaction). InPool t' blk q) (sym same)
      (record {
        sees = modified-Sees env (with_log env t fm lm) blk p q lsn (record {
          index = h.sees.index;
          frame = h.sees.frame;
          mine = h.sees.mine;
          listed = h.sees.listed;
          there = h.sees.there;
          assigned = h.sees.assigned;
          page = h.sees.page;
        });
        found =
            find_existing_buffer-set blk t.bm.pool h.sees.index h.sees.frame
              (set_modified (record h.sees.frame { page = q }) t.tx_num lsn) h.sees.there refl
            ∙ h.found;
        pinned = h.pinned;
      })

Logged-Logs :
    (env : Transaction → Waits) (t t' : Transaction) (blk : BlockId) (p q : Page)
    (rs : List (List ℕ)) (h : Sees t blk p)
    → Logged env t blk p q h rs t'
    → Logs t'.bm.fm t'.bm.lm rs
Logged-Logs env t t' blk p q rs h (fm, lm, lsn, same, g) =
    subst (λ (t' : Transaction). Logs t'.bm.fm t'.bm.lm rs) (sym same) g

-- Rolling back one write: after a logged write of an integer, undoing the record that it put in
-- front of the log returns, and the transaction reads the integer that was there before; the log
-- still holds the record. The transaction has locked the block exclusively and pinned it, and the
-- pool finds it; the integer lies in the page; the record fits a block of the log; and a wait for a
-- buffer is looked at once.
pub set_int-undo :
    (env : Transaction → Waits) (t : Transaction) (blk : BlockId) (p : Page) (at : ℕ) (val old : ℤ)
    (rs : List (List ℕ)) (w : Pool.WakeUp) (ws : List Pool.WakeUp)
    → InPool t blk p
    → Logs t.bm.fm t.bm.lm rs
    → SizeIsRight t.bm.fm
    → Page.get_int p at ≡ ok old
    → InInt32 old
    → at + 4 ≤ length p.bytes
    → length blk.file_name + 32 ≤ t.bm.fm.block_size
    → ((t' : Transaction) → (env t').for_buffer ≡ w ∷ ws)
    → Succeeds
        (λ (x : Transaction × ℤ).
          (x.1 ≡ old)
          × ((bytes : List ℕ) × (log_bytes (set_int_record t.tx_num blk (pos at) old) ≡ ok bytes)
              × Logs x.0.bm.fm x.0.bm.lm (bytes ∷ rs)))
        (do
          t1 ← set_int env t blk (pos at) val true
          t2 ← undo env (set_int_record t.tx_num blk (pos at) old) t1
          get_int env t2 blk (pos at))
set_int-undo env t blk p at val old rs w ws h logs size before range inside fits answers =
    let (bytes, made, long) = length-set_int_bytes t.tx_num blk (pos at) old in
    let (t1, e1, logged) =
      Succeeds-eq (Logged env t blk p (written p) h.sees (bytes ∷ rs))
        (set_int env t blk (pos at) val true)
        (set_int-Logged env t blk p (written p) at val old bytes rs h.sees logs size before made
          (omega (arith, long)) (set_int-fits p at val inside)) in
    let (t2, e2, (sees, (files, log, number))) =
      Succeeds-eq (λ (t' : Transaction). Sees t' blk (restored p) × SameDisk t1 t')
        (undo env (set_int_record t.tx_num blk (pos at) old) t1)
        (undo-InPool env t1 blk (written p) (restored p) t.tx_num at old w ws
          (Logged-InPool env t t1 blk p (written p) (bytes ∷ rs) h logged) (answers t1)
          (set_int-fits (written p) at old room)) in
    rw (e1, e2, get_int-Sees env t2 blk (restored p) at sees, read)
      (
        refl,
        (
          bytes,
          made,
          subst (λ fm. Logs fm t2.bm.lm (bytes ∷ rs)) (sym files)
              (subst (λ lm. Logs t1.bm.fm lm (bytes ∷ rs)) (sym log)
                (Logged-Logs env t t1 blk p (written p) (bytes ∷ rs) h.sees logged)),
        ),
      )
  where
    written : Page → Page
    written p = overwrite p at (encode_int val)

    restored : Page → Page
    restored p = overwrite (written p) at (encode_int old)

    room : at + 4 ≤ length (written p).bytes
    room = omega (arith, length-splice p.bytes at (encode_int val))

    read : Page.get_int (restored p) at ≡ ok old
    read =
        rw (set_int-fits (written p) at old room) at (get_int-set_int (written p) at old room range)
