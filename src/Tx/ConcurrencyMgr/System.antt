-- ===== src/Tx/ConcurrencyMgr/System.antt =====
-- Transactions on one lock table, their steps, and how a step changes the counts of the locks.
use sample_db.Base.{
  ℕ, ◌≡◌, List, [], false, some, ℤ, pos, negsuc, ◌+ℤ◌, ok, find, put, find-put, arith,
  if◌then◌else◌, inl, inr, get_elem?, set,
}
use sample_db.File.BlockId.{BlockId, block_eq, block_beq_iff}
use sample_db.Tx.LockTable.{LockTable, has_other_s_locks, get_lock_val}
use sample_db.Tx.LockTable.Laws.{released, get_lock_val-put}
use sample_db.Tx.ConcurrencyMgr.{
  ConcurrencyMgr, shared, exclusive, s_lock, x_lock, release, is_none, is_exclusive,
}
use sample_db.Tx.ConcurrencyMgr.Held.{at_once, UniqueKeys, UniqueKeys-put, Shares}
use sample_db.Tx.ConcurrencyMgr.Counts.{
  Locks, held, owned, total, total-set, Agrees, AllUnique, owned-le-held, find-nil,
}

-- The lock maps of the transactions, and the one lock table.
pub record System : Type 0 where
  pub txs : List Locks
  pub table : LockTable

abbrev pub view : System → Locks → ConcurrencyMgr
view s l = record { locks = l; table = s.table }

abbrev pub after : System → ℕ → ConcurrencyMgr → System
after s i c = record { txs = set s.txs i c.locks; table = c.table }

-- Transaction `i` makes one call that succeeds, or releases its locks.
pub data Step (s : System) : System → Type 0 where
  shares :
      (i : ℕ) (l : Locks) (blk : BlockId) (c : ConcurrencyMgr)
      → get_elem? s.txs i ≡ some l
      → s_lock at_once blk (view s l) ≡ (ok tt, c)
      → Step s (after s i c)
  upgrades :
      (i : ℕ) (l : Locks) (blk : BlockId) (c : ConcurrencyMgr)
      → get_elem? s.txs i ≡ some l
      → x_lock at_once at_once blk (view s l) ≡ (ok tt, c)
      → Step s (after s i c)
  releases :
      (i : ℕ) (l : Locks) → get_elem? s.txs i ≡ some l → Step s (after s i (release (view s l)))

pub data Reach (s : System) : System → Type 0 where
  here : Reach s s
  next : {t u : System} → Reach s t → Step t u → Reach s u

pub record IsConsistent (s : System) : Type 0 where
  pub agrees :
      (b : BlockId) → Agrees (get_lock_val b s.table) (total (held b) s.txs) (total (owned b) s.txs)
  pub unique : AllUnique s.txs

pub Shares-Agrees :
    (s : System) (i : ℕ) (l : Locks) (blk b : BlockId) (c : ConcurrencyMgr)
    → get_elem? s.txs i ≡ some l
    → Agrees (get_lock_val b s.table) (total (held b) s.txs) (total (owned b) s.txs)
    → Shares blk (view s l) c
    → Agrees
        (get_lock_val b c.table)
        (total (held b) (set s.txs i c.locks))
        (total (owned b) (set s.txs i c.locks))
unfolding ◌+ℤ◌
Shares-Agrees s i l blk b c e a (inl (h, d)) =
    ground (arith, total-set (held b) s.txs i l c.locks e, total-set (owned b) s.txs i l c.locks e)
Shares-Agrees s i l blk b c e a (inr (f, n, d)) = ground (
  arith,
  total-set (held b) s.txs i l c.locks e,
  total-set (owned b) s.txs i l c.locks e,
  block_beq_iff blk b,
  find-put blk b shared l,
  get_lock_val-put blk b (get_lock_val blk s.table +ℤ pos 1) s.table,
)

-- The upgrade of a shared lock that is the only one.
pub upgrade-Agrees :
    (s : System) (i : ℕ) (l : Locks) (blk b : BlockId)
    → get_elem? s.txs i ≡ some l
    → is_none (find blk l) ≡ false
    → is_exclusive (find blk l) ≡ false
    → has_other_s_locks blk s.table ≡ false
    → Agrees (get_lock_val b s.table) (total (held b) s.txs) (total (owned b) s.txs)
    → Agrees
        (get_lock_val b (put blk (negsuc 0) s.table))
        (total (held b) (set s.txs i (put blk exclusive l)))
        (total (owned b) (set s.txs i (put blk exclusive l)))
upgrade-Agrees s i l blk b e h n f a = ground (
  arith,
  total-set (held b) s.txs i l (put blk exclusive l) e,
  total-set (owned b) s.txs i l (put blk exclusive l) e,
  total-set (held b) s.txs i l [] e,
  total-set (owned b) s.txs i l [] e,
  find-nil b,
  owned-le-held b (set s.txs i []),
  block_beq_iff blk b,
  find-put blk b exclusive l,
  get_lock_val-put blk b (negsuc 0) s.table,
)

pub release-Agrees :
    (s : System) (i : ℕ) (l : Locks) (b : BlockId) (v : ℤ)
    → get_elem? s.txs i ≡ some l
    → v ≡ (if is_none (find b l) then get_lock_val b s.table else released (get_lock_val b s.table))
    → Agrees (get_lock_val b s.table) (total (held b) s.txs) (total (owned b) s.txs)
    → Agrees v (total (held b) (set s.txs i [])) (total (owned b) (set s.txs i []))
unfolding ◌+ℤ◌
release-Agrees s i l b v e h a = ground (
  arith,
  total-set (held b) s.txs i l [] e,
  total-set (owned b) s.txs i l [] e,
  find-nil b,
  owned-le-held b (set s.txs i []),
)

pub Shares-keeps :
    (blk : BlockId) (c d : ConcurrencyMgr)
    → Shares blk c d
    → is_exclusive (find blk c.locks) ≡ false
    → UniqueKeys c.locks
    → (is_none (find blk d.locks) ≡ false)
      × (is_exclusive (find blk d.locks) ≡ false)
      × UniqueKeys d.locks
Shares-keeps blk c d (inl (h, e)) n u = ground arith
Shares-keeps blk c d (inr (f, x, e)) n u = ground (
  arith,
  find-put blk blk shared c.locks,
  block_beq_iff blk blk,
  UniqueKeys-put blk shared c.locks u,
)
