-- ===== src/Tx/Transaction/Lookup.antt =====
-- What a transaction sees of a block that it has locked exclusively and pinned: its calls on the
-- block are those on the page of the block's frame.
use mathlib.Core.Path.{subst}
use sample_db.Base.{
  ℕ, suc, ◌+◌, ◌≤◌, ◌≡◌, refl, sym, List, ◌∷◌, true, false, Option, none, some, Str, ℤ, pos, negsuc,
  ok, ◌>>=◌, Succeeds, Succeeds-eq, Succeeds-map, length, get_elem?, find,
}
use sample_db.File.BlockId.{BlockId, block_eq}
use sample_db.File.Page.{Page}
use sample_db.File.Page
use sample_db.File.FileMgr.{FileMgr}
use sample_db.Logging.{LogMgr, append}
use sample_db.Logging.Append.{Logs, append-Logs}
use sample_db.Logging.Room.{SizeIsRight}
use sample_db.Buffer.Frame.{Buffer, set_modified}
use sample_db.Buffer.Pool.Frames.{get_elem?-set_self}
use sample_db.Tx.ConcurrencyMgr.{Mode, s_lock, x_lock, holds_x_lock, is_exclusive, is_none}
use sample_db.Tx.BufferList.{get_buffer}
use sample_db.Tx.LogRecord.{set_int_record, log_bytes}
use sample_db.Tx.Transaction.{
  Transaction, Waits, write_to_log, locked, frame_of, modified, log_int, put_int, put_string,
  take_s_lock, take_x_lock, get_int, get_string, set_int, set_string,
}

-- The transaction has the exclusive lock of the block, and a buffer with this page.
pub record Sees (t : Transaction) (blk : BlockId) (p : Page) : Type 0 where
  pub index : ℕ
  pub frame : Buffer
  pub mine : holds_x_lock blk t.cm ≡ true
  pub listed : find blk t.buffers.buffers ≡ some index
  pub there : get_elem? t.bm.pool index ≡ some frame
  pub assigned : frame.blk ≡ blk
  pub page : frame.page ≡ p

exclusive-some : (o : Option Mode) → is_exclusive o ≡ true → is_none o ≡ false
exclusive-some none h = cc
exclusive-some (some m) h = refl

module _ (env : Transaction → Waits) where
  take_s_lock-held :
      (t : Transaction) (blk : BlockId)
      → holds_x_lock blk t.cm ≡ true
      → take_s_lock env t blk ≡ ok t
  unfolding take_s_lock locked s_lock
  take_s_lock-held t blk h = rw (exclusive-some (find blk t.cm.locks) h) refl

  take_x_lock-held :
      (t : Transaction) (blk : BlockId)
      → holds_x_lock blk t.cm ≡ true
      → take_x_lock env t blk ≡ ok t
  unfolding take_x_lock locked x_lock
  take_x_lock-held t blk h = rw h refl

  frame_of-eq :
      (t : Transaction) (blk : BlockId) (p : Page) (h : Sees t blk p)
      → frame_of t blk ≡ ok (h.index, h.frame)
  unfolding frame_of get_buffer
  frame_of-eq t blk p h = rw (h.listed, h.there) refl

  -- What a transaction reads from a block that it has locked exclusively is what the page holds, and
  -- nothing changes.
  pub get_int-Sees :
      (t : Transaction) (blk : BlockId) (p : Page) (at : ℕ)
      → Sees t blk p
      → get_int env t blk (pos at) ≡ (do v ← Page.get_int p at; ok (t, v))
  unfolding get_int
  get_int-Sees t blk p at h = rw (take_s_lock-held t blk h.mine, frame_of-eq t blk p h, h.page) refl

  pub get_string-Sees :
      (t : Transaction) (blk : BlockId) (p : Page) (at : ℕ)
      → Sees t blk p
      → get_string env t blk (pos at) ≡ (do v ← Page.get_string p at; ok (t, v))
  unfolding get_string
  get_string-Sees t blk p at h =
      rw (take_s_lock-held t blk h.mine, frame_of-eq t blk p h, h.page) refl

  pub modified-Sees :
      (t : Transaction) (blk : BlockId) (p q : Page) (lsn : ℤ) (h : Sees t blk p)
      → Sees (modified t h.index h.frame q lsn) blk q
  unfolding set_modified
  modified-Sees t blk p q lsn h = record {
    index = h.index;
    frame = _;
    mine = h.mine;
    listed = h.listed;
    there = get_elem?-set_self t.bm.pool h.index h.frame _ h.there;
    assigned = h.assigned;
    page = refl;
  }

  -- A write that is not logged: the frame has the new page, and is marked as the transaction's.
  pub set_int-unlogged :
      (t : Transaction) (blk : BlockId) (p q : Page) (at : ℕ) (val : ℤ) (h : Sees t blk p)
      → Page.set_int p at val ≡ ok q
      → set_int env t blk (pos at) val false ≡ ok (modified t h.index h.frame q (negsuc 0))
  unfolding set_int put_int
  set_int-unlogged t blk p q at val h e =
      rw (take_x_lock-held t blk h.mine, frame_of-eq t blk p h, h.page, e) refl

  pub set_string-unlogged :
      (t : Transaction) (blk : BlockId) (p q : Page) (at : ℕ) (val : Str) (h : Sees t blk p)
      → Page.set_string p at val ≡ ok q
      → set_string env t blk (pos at) val false ≡ ok (modified t h.index h.frame q (negsuc 0))
  unfolding set_string put_string
  set_string-unlogged t blk p q at val h e =
      rw (take_x_lock-held t blk h.mine, frame_of-eq t blk p h, h.page, e) refl

  -- The transaction after its record went to the log.
  abbrev pub with_log : Transaction → FileMgr → LogMgr → Transaction
  with_log t fm lm = record t { bm = record t.bm { fm = fm; lm = lm } }

  -- What a logged write leaves: the log with the record of the OLD value, and the page with the new.
  abbrev pub Logged :
      (t : Transaction) (blk : BlockId) (p q : Page)
      → Sees t blk p
      → List (List ℕ)
      → Transaction
      → Type 0
  Logged t blk p q h rs t' =
      (fm : FileMgr) × (lm : LogMgr) × (lsn : ℤ) × (t'
        ≡ modified (with_log t fm lm) h.index h.frame q lsn)
      × Logs fm lm rs

  pub set_int-Logged :
      (t : Transaction) (blk : BlockId) (p q : Page) (at : ℕ) (val old : ℤ) (bytes : List ℕ)
      (rs : List (List ℕ)) (h : Sees t blk p)
      → Logs t.bm.fm t.bm.lm rs
      → SizeIsRight t.bm.fm
      → Page.get_int p at ≡ ok old
      → log_bytes (set_int_record t.tx_num blk (pos at) old) ≡ ok bytes
      → length bytes + 8 ≤ t.bm.fm.block_size
      → Page.set_int p at val ≡ ok q
      → Succeeds (Logged t blk p q h (bytes ∷ rs)) (set_int env t blk (pos at) val true)
  unfolding set_int log_int write_to_log put_int
  set_int-Logged t blk p q at val old bytes rs h logs size before made fits e =
      let (x, d, g) =
        Succeeds-eq
          (λ (x : FileMgr × LogMgr × ℕ).
            Logs x.0 x.1 (bytes ∷ rs)
            × (x.2 ≡ suc t.bm.lm.latest_lsn)
            × (x.1.latest_lsn ≡ suc t.bm.lm.latest_lsn)
            × (x.0.block_size ≡ t.bm.fm.block_size))
          (append t.bm.fm t.bm.lm bytes) (append-Logs t.bm.fm t.bm.lm rs bytes logs size fits) in
      rw (take_x_lock-held t blk h.mine, frame_of-eq t blk p h, before', made', d, e')
        (x.0, x.1, pos x.2, refl, g.0)
    where
      before' : Page.get_int h.frame.page at ≡ ok old
      before' = rw (h.page) before

      made' : log_bytes (set_int_record t.tx_num h.frame.blk (pos at) old) ≡ ok bytes
      made' = rw (h.assigned) made

      e' : Page.set_int h.frame.page at val ≡ ok q
      e' = rw (h.page) e

  -- A logged write of an integer: the log then holds, in front of what it held, an update record
  -- of the transaction with the block, the offset and the OLD value, and the page the new value.
  -- It returns where the transaction has the exclusive lock of the block and a buffer for it, the
  -- value lies in the page, and the record fits a block.
  pub set_int-logged :
      (t : Transaction) (blk : BlockId) (p q : Page) (at : ℕ) (val old : ℤ) (bytes : List ℕ)
      (rs : List (List ℕ))
      → Sees t blk p
      → Logs t.bm.fm t.bm.lm rs
      → SizeIsRight t.bm.fm
      → Page.get_int p at ≡ ok old
      → log_bytes (set_int_record t.tx_num blk (pos at) old) ≡ ok bytes
      → length bytes + 8 ≤ t.bm.fm.block_size
      → Page.set_int p at val ≡ ok q
      → Succeeds
          (λ (t' : Transaction). Sees t' blk q × Logs t'.bm.fm t'.bm.lm (bytes ∷ rs))
          (set_int env t blk (pos at) val true)
  set_int-logged t blk p q at val old bytes rs h logs size before made fits e =
      Succeeds-map (Logged t blk p q h (bytes ∷ rs))
        (λ (t' : Transaction). Sees t' blk q × Logs t'.bm.fm t'.bm.lm (bytes ∷ rs))
        (set_int env t blk (pos at) val true)
        (set_int-Logged t blk p q at val old bytes rs h logs size before made fits e)
        λ t' (fm, lm, lsn, same, g).
          subst (λ (t' : Transaction). Sees t' blk q × Logs t'.bm.fm t'.bm.lm (bytes ∷ rs))
            (sym same)
            (
              modified-Sees (with_log t fm lm) blk p q lsn (record {
                index = h.index;
                frame = h.frame;
                mine = h.mine;
                listed = h.listed;
                there = h.there;
                assigned = h.assigned;
                page = h.page;
              }),
              g,
            )
