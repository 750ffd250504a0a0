-- ===== src/Tx/ConcurrencyMgr/Held.antt =====
-- The effect of each successful call that need not wait, as equations on the two maps.
use sample_db.Base.{
  ◌≡◌, refl, List, [], ◌∷◌, true, false, none, pos, negsuc, ◌+ℤ◌, Result, ok, err, find, put,
  find-put, arith, if◌then◌else◌, ◌⊎◌, inl, inr, Bool-cases,
}
use sample_db.File.BlockId.{BlockId, block_eq, block_beq_iff}
use sample_db.Tx.LockTable.{LockTable, WakeUp, has_x_lock, has_other_s_locks, get_lock_val, if_ok}
use sample_db.Tx.LockTable
use sample_db.Tx.LockTable.Laws.{get_lock_val-unlock, released}
use sample_db.Tx.ConcurrencyMgr.{
  ConcurrencyMgr, Mode, shared, exclusive, s_lock, x_lock, unlock_all, is_none, on_table,
  is_exclusive,
}

-- The test is made at once, and no time has passed.
abbrev pub at_once : List WakeUp
at_once = record { elapsed = 0; others = λ t. t } ∷ []

-- The keys of a map.
abbrev pub UniqueKeys : List (BlockId × Mode) → Type 0
UniqueKeys [] = Unit {0}
UniqueKeys ((k, _) ∷ m) = (find k m ≡ none) × UniqueKeys m

pub UniqueKeys-put :
    (k : BlockId) (v : Mode) (m : List (BlockId × Mode)) → UniqueKeys m → UniqueKeys (put k v m)
unfolding put
UniqueKeys-put k v [] u = (unfold find in refl, tt)
UniqueKeys-put k v ((j, w) ∷ m) u =
    ground (arith, block_beq_iff j k, block_beq_iff k j, find-put k j v m, UniqueKeys-put k v m u.1)

pub get_lock_val-unlock_all :
    (b : BlockId) (l : List (BlockId × Mode)) (t : LockTable)
    → UniqueKeys l
    → get_lock_val b (unlock_all l t)
      ≡ (if is_none (find b l) then get_lock_val b t else released (get_lock_val b t))
unfolding unlock_all find
get_lock_val-unlock_all b [] t u = refl
get_lock_val-unlock_all b ((k, m) ∷ l) t u = ground (
  arith,
  block_beq_iff k b,
  get_lock_val-unlock k b t,
  get_lock_val-unlock_all b l (LockTable.unlock k t) u.1,
)

-- A shared lock is held already, or no exclusive lock stands and it is noted in both maps.
abbrev pub Shares : BlockId → ConcurrencyMgr → ConcurrencyMgr → Type 0
Shares blk c d =
    ((is_none (find blk c.locks) ≡ false) × (d ≡ c))
    ⊎ ((is_none (find blk c.locks) ≡ true)
        × (has_x_lock blk c.table ≡ false)
        × (d ≡ record {
          locks = put blk shared c.locks;
          table = put blk (get_lock_val blk c.table +ℤ pos 1) c.table;
        }))

pub s_lock-Shares :
    (blk : BlockId) (c d : ConcurrencyMgr) → s_lock at_once blk c ≡ (ok tt, d) → Shares blk c d
unfolding s_lock
s_lock-Shares blk c d e = elim (Bool-cases (is_none (find blk c.locks))) [
  | inr held ↦ inl (held, ground arith)
  | inl fresh ↦ inr (fresh, ground arith, ground arith)
]

-- An exclusive lock is held already, or a shared lock becomes one: no other lock stands then.
abbrev pub Upgrades : BlockId → ConcurrencyMgr → ConcurrencyMgr → Type 0
Upgrades blk c d =
    ((is_exclusive (find blk c.locks) ≡ true) × (d ≡ c))
    ⊎ ((s : ConcurrencyMgr) × (is_exclusive (find blk c.locks) ≡ false)
        × Shares blk c s
        × (has_other_s_locks blk s.table ≡ false)
        × (d ≡ record { locks = put blk exclusive s.locks; table = put blk (negsuc 0) s.table }))

abbrev upgrade : BlockId → ConcurrencyMgr → Result (Unit {0}) × ConcurrencyMgr
upgrade blk s =
    on_table (record s { locks = put blk exclusive s.locks }) (LockTable.x_lock at_once blk s.table)

upgraded :
    (blk : BlockId) (c d : ConcurrencyMgr) (r : Result (Unit {0}) × ConcurrencyMgr)
    → s_lock at_once blk c ≡ r
    → is_exclusive (find blk c.locks) ≡ false
    → if_ok r (upgrade blk) ≡ (ok tt, d)
    → (s : ConcurrencyMgr) × (is_exclusive (find blk c.locks) ≡ false)
      × Shares blk c s
      × (has_other_s_locks blk s.table ≡ false)
      × (d ≡ record { locks = put blk exclusive s.locks; table = put blk (negsuc 0) s.table })
unfolding LockTable.x_lock
upgraded blk c d (ok u, s) q other e =
    (s, other, s_lock-Shares blk c s q, ground arith, ground arith)
upgraded blk c d (err f, s) q other e = cc

pub x_lock-Upgrades :
    (blk : BlockId) (c d : ConcurrencyMgr)
    → x_lock at_once at_once blk c ≡ (ok tt, d)
    → Upgrades blk c d
unfolding x_lock
x_lock-Upgrades blk c d e = elim (Bool-cases (is_exclusive (find blk c.locks))) [
  | inl held ↦ inl (held, ground arith)
  | inr other ↦ inr (upgraded blk c d (s_lock at_once blk c) refl other (ground arith))
]
