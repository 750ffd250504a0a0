-- ===== src/Tx/ConcurrencyMgr/Exclusion.antt =====
-- Transactions that lock and release in any order: each block has one writer or any number of
-- readers. A call that has to wait is here the steps of the others, and then the call.
use sample_db.Base.{
  ℕ, ◌≡◌, ◌≢◌, refl, sym, [], false, none, some, pos, negsuc, find, put, arith, ap, inl, inr,
  get_elem?, set,
}
use mathlib.Core.Path.{subst}
use sample_db.File.BlockId.{BlockId, block_eq}
use sample_db.Tx.LockTable.{get_lock_val}
use sample_db.Tx.ConcurrencyMgr.{ConcurrencyMgr, shared, exclusive, release, is_none, is_exclusive}
use sample_db.Tx.ConcurrencyMgr.Held.{
  UniqueKeys, UniqueKeys-put, get_lock_val-unlock_all, Shares, s_lock-Shares, Upgrades,
  x_lock-Upgrades,
}
use sample_db.Tx.ConcurrencyMgr.Counts.{
  Locks, held, owned, total, total-set, Agrees, AllUnique-get, AllUnique-set, set-set,
  get_elem?-set_self, find-nil, held-le-total, get_elem?-set_ne, no_locks, total-no_locks,
  AllUnique-no_locks,
}
use sample_db.Tx.ConcurrencyMgr.System.{
  System, view, after, Step, shares, upgrades, releases, Reach, here, next, IsConsistent,
  Shares-Agrees, upgrade-Agrees, release-Agrees, Shares-keeps,
}

after-IsConsistent :
    (s : System) (i : ℕ) (c : ConcurrencyMgr)
    → ((b : BlockId)
        → Agrees
            (get_lock_val b c.table)
            (total (held b) (set s.txs i c.locks))
            (total (owned b) (set s.txs i c.locks)))
    → IsConsistent s
    → UniqueKeys c.locks
    → IsConsistent (after s i c)
after-IsConsistent s i c a v u = record {
  agrees = a;
  unique = AllUnique-set s.txs i c.locks v.unique u;
}

Shares-IsConsistent :
    (s : System) (i : ℕ) (l : Locks) (blk : BlockId) (c : ConcurrencyMgr)
    → get_elem? s.txs i ≡ some l
    → IsConsistent s
    → Shares blk (view s l) c
    → IsConsistent (after s i c)
Shares-IsConsistent s i l blk c e v h =
    after-IsConsistent s i c (λ b. Shares-Agrees s i l blk b c e (v.agrees b) h) v (unique h)
  where
    unique : Shares blk (view s l) c → UniqueKeys c.locks
    unique (inl (n, d)) =
        subst UniqueKeys (sym (ap (λ k. k.locks) d)) (AllUnique-get s.txs i l v.unique e)
    unique (inr (f, n, d)) =
        subst UniqueKeys (sym (ap (λ k. k.locks) d))
          (UniqueKeys-put blk shared l (AllUnique-get s.txs i l v.unique e))

Upgrades-IsConsistent :
    (s : System) (i : ℕ) (l : Locks) (blk : BlockId) (c : ConcurrencyMgr)
    → get_elem? s.txs i ≡ some l
    → IsConsistent s
    → Upgrades blk (view s l) c
    → IsConsistent (after s i c)
Upgrades-IsConsistent s i l blk c e v (inl (x, d)) =
    Shares-IsConsistent s i l blk c e v (inl (ground arith, d))
Upgrades-IsConsistent s i l blk c e v (inr (m, x, sh, f, d)) =
    after-IsConsistent s i c agrees v
      (subst UniqueKeys (sym (ap (λ k. k.locks) d)) (UniqueKeys-put blk exclusive m.locks keeps.2))
  where
    keeps :
        (is_none (find blk m.locks) ≡ false)
        × (is_exclusive (find blk m.locks) ≡ false)
        × UniqueKeys m.locks
    keeps = Shares-keeps blk (view s l) m sh x (AllUnique-get s.txs i l v.unique e)

    agrees :
        (b : BlockId)
        → Agrees
            (get_lock_val b c.table)
            (total (held b) (set s.txs i c.locks))
            (total (owned b) (set s.txs i c.locks))
    agrees b =
        subst
          (λ k.
            Agrees (get_lock_val b k.table) (total (held b) (set s.txs i k.locks))
              (total (owned b) (set s.txs i k.locks)))
          (sym d)
          (subst
            (λ ls.
              Agrees (get_lock_val b (put blk (negsuc 0) m.table)) (total (held b) ls)
                (total (owned b) ls))
            (set-set s.txs i m.locks (put blk exclusive m.locks))
            (upgrade-Agrees (after s i m) i m.locks blk b (get_elem?-set_self s.txs i l m.locks e)
              keeps.0 keeps.1 f (Shares-Agrees s i l blk b m e (v.agrees b) sh)))

-- Every step keeps the table in agreement with the locks that the transactions hold.
pub Step-IsConsistent : {s t : System} → Step s t → IsConsistent s → IsConsistent t
Step-IsConsistent {s} (shares i l blk c e h) v =
    Shares-IsConsistent s i l blk c e v (s_lock-Shares blk (view s l) c h)
Step-IsConsistent {s} (upgrades i l blk c e h) v =
    Upgrades-IsConsistent s i l blk c e v (x_lock-Upgrades blk (view s l) c h)
Step-IsConsistent {s} (releases i l e) v =
    after-IsConsistent s i (release (view s l)) agrees v (unfold release in tt)
  where
    agrees :
        (b : BlockId)
        → Agrees
            (get_lock_val b (release (view s l)).table)
            (total (held b) (set s.txs i (release (view s l)).locks))
            (total (owned b) (set s.txs i (release (view s l)).locks))
    agrees b =
        unfold release in
        release-Agrees s i l b _ e
          (get_lock_val-unlock_all b l s.table (AllUnique-get s.txs i l v.unique e)) (v.agrees b)

Reach-IsConsistent : {s t : System} → Reach s t → IsConsistent s → IsConsistent t
Reach-IsConsistent here v = v
Reach-IsConsistent (next r h) v = Step-IsConsistent h (Reach-IsConsistent r v)

-- `n` transactions without locks, and an empty table.
abbrev pub start : ℕ → System
start n = record { txs = no_locks n; table = [] }

start-IsConsistent : (n : ℕ) → IsConsistent (start n)
unfolding find get_lock_val
start-IsConsistent n = record {
  agrees =
      λ b. inl (sym (ap pos (total-no_locks (held b) n refl)), total-no_locks (owned b) n refl);
  unique = AllUnique-no_locks n;
}

-- Whatever lock calls have succeeded and whatever locks were released before: while one transaction has a block exclusively, no other has a
-- lock on it.
pub exclusive-alone :
    (n : ℕ) (s : System) (i j : ℕ) (l m : Locks) (b : BlockId)
    → Reach (start n) s
    → i ≢ j
    → get_elem? s.txs i ≡ some l
    → get_elem? s.txs j ≡ some m
    → find b l ≡ some exclusive
    → find b m ≡ none
exclusive-alone n s i j l m b r d e g x = ground (
  arith,
  (Reach-IsConsistent r (start-IsConsistent n)).agrees b,
  total-set (held b) s.txs i l [] e,
  total-set (owned b) s.txs i l [] e,
  find-nil b,
  get_elem?-set_ne s.txs i j [] d,
  held-le-total b (set s.txs i []) j m,
)
