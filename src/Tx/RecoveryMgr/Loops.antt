-- ===== src/Tx/RecoveryMgr/Loops.antt =====
-- What the loops of rollback and recovery undo, as lists of records.
use mathlib.Core.Path.{subst}
use sample_db.Base.{
  ℕ, zero, suc, ◌<◌, ◌≡◌, refl, sym, ap, ◌∙◌, List, [], ◌∷◌, Bool, true, false, some, Str, str_eq,
  ℤ, pos, int_eq, ◌==◌, Result, ok, ◌>>=◌, >>=-map, Succeeds, Succeeds-eq, length, arith,
  if◌then◌else◌,
}
use sample_db.Logging.{LogIterator, next}
use sample_db.Logging.Ahead.{
  Ahead, Ahead-nil, Ahead-cons, Ahead-same, SameLog, Gives, next-Ahead_files,
}
use sample_db.Tx.LogRecord.{LogRecord, op, tx_number, create_log_record}
use sample_db.Tx.Transaction.{Transaction, Waits}
use sample_db.Tx.RecoveryMgr.{
  undo, next_record, rollback_step, do_rollback, recover_step, do_recover, is_end, is_listed,
}

-- The records of a transaction down to its start: what `doRollback` undoes.
unfoldable pub own_records : ℤ → List LogRecord → List LogRecord
own_records n [] = []
own_records n (r ∷ rs) =
    let more = own_records n rs in
    if tx_number r == n then if op r == pos 1 then [] else r ∷ more else more

-- The records down to the last checkpoint whose transaction had no end after them: what `doRecover`
-- undoes.
unfoldable pub unfinished_records : List ℤ → List LogRecord → List LogRecord
unfinished_records done [] = []
unfinished_records done (r ∷ rs) =
    let ended = unfinished_records (tx_number r ∷ done) rs in
    let more = unfinished_records done rs in
    if op r == pos 0
    then []
    else if is_end r
    then ended
    else if is_listed (tx_number r) done
    then more
    else r ∷ more

-- The records are undone in this order.
unfoldable pub undo_all : (Transaction → Waits) → List LogRecord → Transaction → Result Transaction
undo_all env [] t = ok t
undo_all env (r ∷ rs) t = do t' ← undo env r t; undo_all env rs t'

-- The bytes are those of the records.
abbrev pub Decode : List (List ℕ) → List LogRecord → Type 0
Decode [] [] = Unit {0}
Decode [] (r ∷ rs) = ⊥
Decode (b ∷ bs) [] = ⊥
Decode (b ∷ bs) (r ∷ rs) = (create_log_record b ≡ ok (some r)) × Decode bs rs

-- Each undo returns, and leaves the file of the log and the transaction's number.
abbrev pub KeepsLog : (Transaction → Waits) → Str → List LogRecord → Transaction → Type 0
KeepsLog env name [] t = Unit {0}
KeepsLog env name (r ∷ rs) t =
    Succeeds
      (λ (t' : Transaction).
        SameLog name t.bm.fm t'.bm.fm × (t'.tx_num ≡ t.tx_num) × KeepsLog env name rs t')
      (undo env r t)

-- What `next_record` gives: the transaction stays, and the iterator goes past the record.
abbrev Read :
    Transaction → Str → List (List ℕ) → LogRecord → Transaction × LogIterator × LogRecord → Type 0
Read t name bs r x = (x.0 ≡ t) × (x.2 ≡ r) × Ahead t.bm.fm name x.1 bs

next_record-Ahead :
    (t : Transaction) (name : Str) (it : LogIterator) (b : List ℕ) (bs : List (List ℕ))
    (r : LogRecord)
    → Ahead t.bm.fm name it (b ∷ bs)
    → create_log_record b ≡ ok (some r)
    → Succeeds (Read t name bs r) (next_record t it)
unfolding next_record
next_record-Ahead t name it b bs r h d =
    let (x, e, (g, same)) =
      Succeeds-eq (Gives name b bs) (next t.bm.fm it) (Ahead-cons t.bm.fm name it b bs h).1 in
    let stays : x.0 ≡ t.bm.fm = next-Ahead_files t.bm.fm name it b bs x h e in
    let decoded : create_log_record x.2 ≡ ok (some r) = rw same d in
    rw (e, decoded)
      (
        ap (λ fm. record t { bm = record t.bm { fm = fm } }) stays,
        refl,
        subst (λ fm. Ahead fm name x.1 bs) stays g,
      )

next_record-eq :
    (t : Transaction) (name : Str) (it : LogIterator) (b : List ℕ) (bs : List (List ℕ))
    (r : LogRecord)
    → Ahead t.bm.fm name it (b ∷ bs)
    → create_log_record b ≡ ok (some r)
    → (it' : LogIterator) × (next_record t it ≡ ok (t, it', r)) × Ahead t.bm.fm name it' bs
next_record-eq t name it b bs r h d =
    let (x, e, (same, rec, ahead)) =
      Succeeds-eq (Read t name bs r) (next_record t it) (next_record-Ahead t name it b bs r h d) in
    (x.1, e ∙ (λ i. ok (same i, x.1, rec i)), ahead)

module _ (env : Transaction → Waits) (name : Str) where
  -- The rest of a loop undoes records `rest` from each transaction that kept the log of `t`.
  abbrev GoesOn : Transaction → List LogRecord → (Transaction → Result Transaction) → Type 0
  GoesOn t rest loop =
      (t2 : Transaction)
      → SameLog name t.bm.fm t2.bm.fm
      → t2.tx_num ≡ t.tx_num
      → KeepsLog env name rest t2
      → loop t2 ≡ undo_all env rest t2

  -- One turn of a loop that undoes a record, and one that does not.
  undo-GoesOn :
      (t : Transaction) (r : LogRecord) (rest : List LogRecord)
      (loop : Transaction → Result Transaction)
      → GoesOn t rest loop
      → KeepsLog env name (r ∷ rest) t
      → (undo env r t >>= loop) ≡ undo_all env (r ∷ rest) t
  unfolding undo_all
  undo-GoesOn t r rest loop go k =
      let (t2, e, (same, number, keeps)) =
        Succeeds-eq
          (λ (t' : Transaction).
            SameLog name t.bm.fm t'.bm.fm × (t'.tx_num ≡ t.tx_num) × KeepsLog env name rest t')
          (undo env r t) k in
      rw e (go t2 same number keeps)

  rollback-turn :
      (t : Transaction) (r : LogRecord) (rs : List LogRecord)
      (loop : Transaction → Result Transaction) (b c : Bool)
      → (tx_number r == t.tx_num) ≡ b
      → (op r == pos 1) ≡ c
      → GoesOn t (own_records t.tx_num rs) loop
      → KeepsLog env name (own_records t.tx_num (r ∷ rs)) t
      → (do (t2, more) ← rollback_step env r t; elim more [ false ↦ ok t2 | true ↦ loop t2 ])
        ≡ undo_all env (own_records t.tx_num (r ∷ rs)) t
  unfolding rollback_step own_records
  rollback-turn t r rs loop false c e f go k =
      rw e
        (go t (refl, refl) refl (subst (λ l. KeepsLog env name l t) (rw (own_records, e) refl) k))
  rollback-turn t r rs loop true true e f go k = rw (e, f) (unfold undo_all in refl)
  rollback-turn t r rs loop true false e f go k =
      rw (e, f)
        (>>=-map (undo env r t) _ _
          ∙ undo-GoesOn t r (own_records t.tx_num rs) loop go (
              subst (λ l. KeepsLog env name l t) {y = r ∷ own_records t.tx_num rs}
                (rw (own_records, e, f) refl) k))

  recover-turn :
      (done : List ℤ) (t : Transaction) (r : LogRecord) (rs : List LogRecord)
      (loop : List ℤ → Transaction → Result Transaction) (b c d : Bool)
      → (op r == pos 0) ≡ b
      → is_end r ≡ c
      → is_listed (tx_number r) done ≡ d
      → ((done' : List ℤ) → GoesOn t (unfinished_records done' rs) (loop done'))
      → KeepsLog env name (unfinished_records done (r ∷ rs)) t
      → elim (op r == pos 0) [
        | true ↦ ok t
        | false ↦ do (t2, done') ← recover_step env done r t; loop done' t2
      ]
        ≡ undo_all env (unfinished_records done (r ∷ rs)) t
  unfolding recover_step unfinished_records
  recover-turn done t r rs loop true c d e f g go k = rw e (unfold undo_all in refl)
  recover-turn done t r rs loop false true d e f g go k =
      rw (e, f)
        (go (tx_number r ∷ done) t (refl, refl) refl
          (subst (λ l. KeepsLog env name l t) {y = unfinished_records (tx_number r ∷ done) rs}
            (rw (unfinished_records, e, f) refl) k))
  recover-turn done t r rs loop false false true e f g go k =
      rw (e, f, g)
        (go done t (refl, refl) refl
          (subst (λ l. KeepsLog env name l t) {y = unfinished_records done rs}
            (rw (unfinished_records, e, f, g) refl) k))
  recover-turn done t r rs loop false false false e f g go k =
      rw (e, f, g)
        (>>=-map (undo env r t) _ _
          ∙ undo-GoesOn t r (unfinished_records done rs) (loop done) (go done) (
              subst (λ l. KeepsLog env name l t) {y = r ∷ unfinished_records done rs}
                (rw (unfinished_records, e, f, g) refl) k))

-- The loop of rollback undoes the records of its transaction down to its start, the newest first,
-- and no others. The iterator stands before records that decode, each undo of a record leaves the
-- file of the log, and there is fuel for each record and one more.
pub do_rollback-Ahead :
    (env : Transaction → Waits) (fuel : ℕ) (t : Transaction) (name : Str) (it : LogIterator)
    (bs : List (List ℕ)) (rs : List LogRecord)
    → Ahead t.bm.fm name it bs
    → Decode bs rs
    → KeepsLog env name (own_records t.tx_num rs) t
    → length bs < fuel
    → do_rollback env fuel t it ≡ undo_all env (own_records t.tx_num rs) t
unfolding do_rollback own_records undo_all
do_rollback-Ahead env zero t name it bs rs h d k lt = absurd (omega arith)
do_rollback-Ahead env (suc fuel) t name it [] [] h d k lt =
    rw (do_rollback, Ahead-nil t.bm.fm name it h) refl
do_rollback-Ahead env (suc fuel) t name it [] (r ∷ rs) h d k lt = absurd d
do_rollback-Ahead env (suc fuel) t name it (b ∷ bs) [] h d k lt = absurd d
do_rollback-Ahead env (suc fuel) t name it (b ∷ bs) (r ∷ rs) h d k lt =
    let (it', e, ahead) = next_record-eq t name it b bs r h d.0 in
    rw (do_rollback, (Ahead-cons t.bm.fm name it b bs h).0, e)
      (rollback-turn env name t r rs (λ t2. do_rollback env fuel t2 it') _ _ refl refl
        (λ t2 same number keeps.
          do_rollback-Ahead env fuel t2 name it' bs rs
            (Ahead-same t.bm.fm t2.bm.fm name it' bs same ahead) d.1
            (subst (λ n. KeepsLog env name (own_records n rs) t2) (sym number) keeps) (omega arith)
          ∙ ap (λ n. undo_all env (own_records n rs) t2) number)
        k)

-- The loop of recovery undoes the updates down to the last checkpoint whose transaction neither
-- committed nor rolled back after them, the newest first, and no others. The iterator stands before
-- records that decode, each undo of a record leaves the file of the log, and there is fuel for each record and one more.
pub do_recover-Ahead :
    (env : Transaction → Waits) (fuel : ℕ) (done : List ℤ) (t : Transaction) (name : Str)
    (it : LogIterator) (bs : List (List ℕ)) (rs : List LogRecord)
    → Ahead t.bm.fm name it bs
    → Decode bs rs
    → KeepsLog env name (unfinished_records done rs) t
    → length bs < fuel
    → do_recover env fuel done t it ≡ undo_all env (unfinished_records done rs) t
unfolding do_recover unfinished_records undo_all
do_recover-Ahead env zero done t name it bs rs h d k lt = absurd (omega arith)
do_recover-Ahead env (suc fuel) done t name it [] [] h d k lt =
    rw (do_recover, Ahead-nil t.bm.fm name it h) refl
do_recover-Ahead env (suc fuel) done t name it [] (r ∷ rs) h d k lt = absurd d
do_recover-Ahead env (suc fuel) done t name it (b ∷ bs) [] h d k lt = absurd d
do_recover-Ahead env (suc fuel) done t name it (b ∷ bs) (r ∷ rs) h d k lt =
    let (it', e, ahead) = next_record-eq t name it b bs r h d.0 in
    rw (do_recover, (Ahead-cons t.bm.fm name it b bs h).0, e)
      (recover-turn env name done t r rs (λ done' t2. do_recover env fuel done' t2 it') _ _ _ refl
        refl refl
        (λ done' t2 same number keeps.
          do_recover-Ahead env fuel done' t2 name it' bs rs
            (Ahead-same t.bm.fm t2.bm.fm name it' bs same ahead) d.1 keeps (omega arith))
        k)
