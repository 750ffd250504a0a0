-- ===== src/Tx/ConcurrencyMgr.antt =====
-- tx/ConcurrencyMgr.cpp: the locks of one transaction, beside the table that all share. A call that
-- throws leaves what it wrote before, so the state comes back beside the result.
pub mod Timeout
pub mod Held
pub mod Counts
pub mod System
pub mod Exclusion
use sample_db.Base.{
  ℕ, List, [], ◌∷◌, Bool, true, false, Option, none, some, Result, ok, err, if◌then◌else◌, find,
  put,
}
use sample_db.File.BlockId.{BlockId, block_eq}
use sample_db.Tx.LockTable.{LockTable, WakeUp, if_ok}
use sample_db.Tx.LockTable

-- The strings "S" and "X".
pub data Mode : Type 0 where
  shared exclusive : Mode

-- A transaction's own map of locks, beside the table that all share.
pub record ConcurrencyMgr : Type 0 where
  pub locks : List (BlockId × Mode)
  pub table : LockTable

abbrev pub on_table :
    ConcurrencyMgr → Result (Unit {0}) × LockTable → Result (Unit {0}) × ConcurrencyMgr
on_table c (r, t) = (r, record c { table = t })

abbrev pub is_exclusive : Option Mode → Bool
is_exclusive none = false
is_exclusive (some shared) = false
is_exclusive (some exclusive) = true

-- The private `hasXLock`.
abbrev pub holds_x_lock : BlockId → ConcurrencyMgr → Bool
holds_x_lock blk c = is_exclusive (find blk c.locks)

abbrev pub is_none {ℓ} : {A : Type ℓ} → Option A → Bool
is_none none = true
is_none (some a) = false

-- `sLock`: the lock is noted before the table is asked.
unfoldable pub s_lock : List WakeUp → BlockId → ConcurrencyMgr → Result (Unit {0}) × ConcurrencyMgr
unfolding LockTable.s_lock find put
s_lock ws blk c =
    if is_none (find blk c.locks)
    then on_table (record c { locks = put blk shared c.locks }) (LockTable.s_lock ws blk c.table)
    else (ok tt, c)

-- `xLock`: a shared lock first, then the upgrade.
unfoldable pub x_lock :
    List WakeUp → List WakeUp → BlockId → ConcurrencyMgr → Result (Unit {0}) × ConcurrencyMgr
unfolding s_lock LockTable.x_lock find put
x_lock ws us blk c =
    if holds_x_lock blk c
    then (ok tt, c)
    else if_ok (s_lock ws blk c) λ c'.
      on_table (record c' { locks = put blk exclusive c'.locks }) (LockTable.x_lock us blk c'.table)

unfoldable pub unlock_all : List (BlockId × Mode) → LockTable → LockTable
unfolding LockTable.unlock
unlock_all [] t = t
unlock_all ((blk, _) ∷ held) t = unlock_all held (LockTable.unlock blk t)

-- `release`.
unfoldable pub release : ConcurrencyMgr → ConcurrencyMgr
unfolding unlock_all
release c = record { locks = []; table = unlock_all c.locks c.table }
