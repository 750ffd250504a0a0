-- ===== src/Tx/LockTable/Laws.antt =====
-- What locking and unlocking one block do to the lock value of every block.
use sample_db.Base.{
  ◌≡◌, List, [], ◌∷◌, Bool, true, false, ℤ, pos, negsuc, ◌+ℤ◌, int_lt, Result, ok, err, thrown,
  if◌then◌else◌, put, find-put, find-erase, arith, ◌≢◌,
}
use sample_db.File.BlockId.{BlockId, block_eq, block_beq, block_beq_iff}
use sample_db.Tx.LockTable.{
  LockTable, WakeUp, get_lock_val, has_x_lock, has_other_s_locks, wait_while, if_ok, s_lock, x_lock,
  unlock,
}

-- A shared lock that need not wait.
pub s_lock-free :
    (w : WakeUp) (ws : List WakeUp) (blk : BlockId) (t : LockTable)
    → has_x_lock blk t ≡ false
    → s_lock (w ∷ ws) blk t ≡ (ok tt, put blk (get_lock_val blk t +ℤ pos 1) t)
unfolding s_lock
s_lock-free w ws blk t h = ground arith

-- An upgrade that need not wait.
pub x_lock-free :
    (w : WakeUp) (ws : List WakeUp) (blk : BlockId) (t : LockTable)
    → has_other_s_locks blk t ≡ false
    → x_lock (w ∷ ws) blk t ≡ (ok tt, put blk (negsuc 0) t)
unfolding x_lock
x_lock-free w ws blk t h = ground arith

pub get_lock_val-put :
    (blk other : BlockId) (v : ℤ) (t : LockTable)
    → get_lock_val other (put blk v t) ≡ (if block_beq blk other then v else get_lock_val other t)
unfolding get_lock_val
get_lock_val-put blk other v t = ground (arith, find-put blk other v t, block_beq_iff blk other)

-- One shared lock less; no lock, if there was one lock or an exclusive one.
abbrev pub released : ℤ → ℤ
released v = if int_lt (pos 1) v then v +ℤ negsuc 0 else pos 0

pub get_lock_val-unlock :
    (blk other : BlockId) (t : LockTable)
    → get_lock_val other (unlock blk t)
      ≡ (if block_beq blk other then released (get_lock_val blk t) else get_lock_val other t)
unfolding unlock
get_lock_val-unlock blk other t = ground (
  arith,
  find-put blk other (get_lock_val blk t +ℤ negsuc 0) t,
  find-erase blk other t,
  block_beq_iff blk other,
)

-- A wait ends, or its wake-ups run out; it never throws.
wait_while-ne-thrown :
    (test : LockTable → Bool) (ws : List WakeUp) (t : LockTable)
    → (wait_while test ws t).0 ≢ err thrown
unfolding wait_while
wait_while-ne-thrown test [] t = ground arith
wait_while-ne-thrown test (w ∷ ws) t = ground (arith, wait_while-ne-thrown test ws (w.others t))

-- A shared lock that is refused leaves the exclusive lock that refused it.
pub s_lock_refused :
    (ws : List WakeUp) (blk : BlockId) (t : LockTable)
    → (s_lock ws blk t).0 ≡ err thrown
    → has_x_lock blk (s_lock ws blk t).1 ≡ true
unfolding s_lock
s_lock_refused ws blk t e = after (wait_while (has_x_lock blk) ws t) (wait_while-ne-thrown _ ws t) e
  where
    after :
        (r : Result (Unit {0}) × LockTable)
        → r.0 ≢ err thrown
        → (if_ok r (λ t'.
            if has_x_lock blk t'
            then (err thrown, t')
            else (ok tt, put blk (get_lock_val blk t' +ℤ pos 1) t'))).0
          ≡ err thrown
        → has_x_lock blk
            (if_ok r (λ t'.
              if has_x_lock blk t'
              then (err thrown, t')
              else (ok tt, put blk (get_lock_val blk t' +ℤ pos 1) t'))).1
          ≡ true
    after (ok u, t') d q = ground arith
    after (err f, t') d q = absurd (d q)
