-- ===== src/Tx/LockTable/Waiting.antt =====
-- Waiting for a lock comes to an end.
use mathlib.Core.Bool.{true≢false}
use sample_db.Base.{
  ◌≡◌, refl, sym, ◌∙◌, List, [], ◌∷◌, Bool, true, false, Bool-cases, ◌⊎◌, inl, inr, pos, negsuc,
  ◌+ℤ◌, ok, err, thrown, put,
}
use sample_db.File.BlockId.{BlockId, block_eq}
use sample_db.Tx.LockTable.{
  LockTable, WakeUp, waiting_too_long, has_x_lock, has_other_s_locks, wait_while, get_lock_val,
  s_lock, x_lock,
}

-- The clock passes the limit at one of the wake-ups.
abbrev pub Expires : List WakeUp → Type 0
Expires [] = ⊥
Expires (w ∷ ws) = (waiting_too_long w.elapsed ≡ true) ⊎ Expires ws

-- The table at the end of the waiting: the first that fails the test, or the one at which the time
-- is up.
pub data Waited (test : LockTable → Bool) : List WakeUp → LockTable → LockTable → Type 0 where
  free : {w : WakeUp} {ws : List WakeUp} {t : LockTable} → test t ≡ false → Waited test (w ∷ ws) t t
  late :
      {w : WakeUp} {ws : List WakeUp} {t : LockTable}
      → test t ≡ true
      → waiting_too_long w.elapsed ≡ true
      → Waited test (w ∷ ws) t t
  again :
      {w : WakeUp} {ws : List WakeUp} {t t' : LockTable}
      → test t ≡ true
      → waiting_too_long w.elapsed ≡ false
      → Waited test ws (w.others t) t'
      → Waited test (w ∷ ws) t t'

wait_while-Waited :
    (test : LockTable → Bool) (ws : List WakeUp) (t : LockTable)
    → Expires ws
    → (t' : LockTable) × Waited test ws t t' × (wait_while test ws t ≡ (ok tt, t'))
unfolding wait_while
wait_while-Waited test [] t x = absurd x
wait_while-Waited test (w ∷ ws) t x = elim (Bool-cases (test t)) [
  | inr not_held ↦ (t, free not_held, rw not_held refl)
  | inl held ↦ elim (Bool-cases (waiting_too_long w.elapsed)) [
    | inl up ↦ (t, late held up, rw (held, up) refl)
    | inr not_up ↦ elim x [
      | inl up ↦ absurd (true≢false (sym up ∙ not_up))
      | inr later ↦
          let (t', waited, e) = wait_while-Waited test ws (w.others t) later in
          (t', again held not_up waited, rw (held, not_up) e)
    ]
  ]
]

-- A call that waits for a lock ends, if the clock passes the limit at one of the wake-ups. The table
-- at the end of the waiting is the first without a lock that is in the way, or else the one when the
-- time is up. Without such a lock there the call takes its lock: a shared lock is counted, and an
-- exclusive one is -1. With such a lock the call throws and leaves that table.
pub lock-Waited :
    (ws : List WakeUp) (blk : BlockId) (t : LockTable)
    → Expires ws
    → ((t' : LockTable) × Waited (has_x_lock blk) ws t t'
        × (((has_x_lock blk t' ≡ false)
              × (s_lock ws blk t ≡ (ok tt, put blk (get_lock_val blk t' +ℤ pos 1) t')))
            ⊎ ((has_x_lock blk t' ≡ true) × (s_lock ws blk t ≡ (err thrown, t')))))
      × ((t' : LockTable) × Waited (has_other_s_locks blk) ws t t'
          × (((has_other_s_locks blk t' ≡ false)
                × (x_lock ws blk t ≡ (ok tt, put blk (negsuc 0) t')))
              ⊎ ((has_other_s_locks blk t' ≡ true) × (x_lock ws blk t ≡ (err thrown, t')))))
unfolding s_lock x_lock
lock-Waited ws blk t x =
    let (s, s_waited, e) = wait_while-Waited (has_x_lock blk) ws t x in
    let (r, r_waited, f) = wait_while-Waited (has_other_s_locks blk) ws t x in
    (
      (
        s,
        s_waited,
        elim (Bool-cases (has_x_lock blk s)) [
          | inl held ↦ inr (held, rw (e, held) refl)
          | inr not_held ↦ inl (not_held, rw (e, not_held) refl)
        ],
      ),
      (
        r,
        r_waited,
        elim (Bool-cases (has_other_s_locks blk r)) [
          | inl held ↦ inr (held, rw (f, held) refl)
          | inr not_held ↦ inl (not_held, rw (f, not_held) refl)
        ],
      ),
    )
