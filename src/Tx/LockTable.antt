-- ===== src/Tx/LockTable.antt =====
-- tx/LockTable.cpp. The lock value of a block is -1 for an exclusive
-- lock and otherwise the number of shared locks. A call that throws leaves what it wrote before,
-- so the state comes back beside the result. While a call waits, other threads act: a list of
-- wake-ups says what they do to the table, and what the clock shows.
pub mod Laws
pub mod Waiting
use sample_db.Base.{
  ℕ, zero, suc, ◌+◌, ◌-◌, List, [], ◌∷◌, Bool, true, false, not, ◌&&◌, Option, none, some, ℤ, pos,
  negsuc, ◌+ℤ◌, int_lt, Result, ok, err, thrown, starved, ltb, if◌then◌else◌, find, put, erase,
}
use sample_db.File.BlockId.{BlockId, block_eq}

abbrev pub LockTable : Type 0
LockTable = List (BlockId × ℤ)

abbrev pub max_locks : ℕ
max_locks = 10_000

pub record WakeUp : Type 0 where
  pub elapsed : ℕ
  pub others : LockTable → LockTable

abbrev pub waiting_too_long : ℕ → Bool
waiting_too_long elapsed = ltb max_locks elapsed

abbrev pub value_of : Option ℤ → ℤ
value_of none = pos 0
value_of (some v) = v

unfoldable pub get_lock_val : BlockId → LockTable → ℤ
unfolding find
get_lock_val blk t = value_of (find blk t)

abbrev pub has_x_lock : BlockId → LockTable → Bool
has_x_lock blk t = int_lt (get_lock_val blk t) (pos 0)

abbrev pub has_other_s_locks : BlockId → LockTable → Bool
has_other_s_locks blk t = int_lt (pos 1) (get_lock_val blk t)

-- `while (test && !waitingTooLong(start)) wait`.
unfoldable pub wait_while :
    (LockTable → Bool) → List WakeUp → LockTable → Result (Unit {0}) × LockTable
wait_while test [] t = (err starved, t)
wait_while test (w ∷ ws) t =
    let later = wait_while test ws (w.others t) in
    if test t && not (waiting_too_long w.elapsed) then later else (ok tt, t)

abbrev pub if_ok {ℓ} :
    {S : Type ℓ} → Result (Unit {0}) × S → (S → Result (Unit {0}) × S) → Result (Unit {0}) × S
if_ok (ok _, s) f = f s
if_ok (err e, s) f = (err e, s)

-- `sLock`.
unfoldable pub s_lock : List WakeUp → BlockId → LockTable → Result (Unit {0}) × LockTable
unfolding wait_while get_lock_val put ◌+ℤ◌
s_lock ws blk t = if_ok (wait_while (has_x_lock blk) ws t) λ t'.
    if has_x_lock blk t'
    then (err thrown, t')
    else (ok tt, put blk (get_lock_val blk t' +ℤ pos 1) t')

-- `xLock`: the caller has a shared lock already.
unfoldable pub x_lock : List WakeUp → BlockId → LockTable → Result (Unit {0}) × LockTable
unfolding wait_while get_lock_val put
x_lock ws blk t =
    if_ok (wait_while (has_other_s_locks blk) ws t)
      λ t'. if has_other_s_locks blk t' then (err thrown, t') else (ok tt, put blk (negsuc 0) t')

-- `unlock`.
unfoldable pub unlock : BlockId → LockTable → LockTable
unfolding get_lock_val put erase ◌+ℤ◌
unlock blk t =
    if int_lt (pos 1) (get_lock_val blk t)
    then put blk (get_lock_val blk t +ℤ negsuc 0) t
    else erase blk t
