-- ===== src/Record/RecordPage/Insert.antt =====
-- Insertion into a slot that is not used.
use sample_db.Base.{
  ℕ, suc, ◌+◌, ◌*◌, ◌≤◌, ◌<◌, ◌≡◌, ◌≢◌, refl, sym, ap, ◌∙◌, List, ◌∷◌, ℤ, pos, negsuc, ◌+ℤ◌, ok,
  Succeeds, Succeeds-bind, Succeeds-eq, length, arith, ◌⊎◌, inl, inr, slice-splice_before,
  drop-splice_after, take,
}
use mathlib.Core.Path.{subst}
use native.Mathlib.Decide.{dec_lt}
use sample_db.File.Page.{Page}
use sample_db.File.Page.Words.{decode_int, encode_int, decode-encode, length-encode}
use sample_db.File.Page.RoundTrip.{overwrite, set_int-fits, get_int-fits, slice-encode}
use sample_db.Logging.Append.{Logs}
use sample_db.Logging.Room.{SizeIsRight}
use sample_db.Tx.LogRecord.{set_int_record, log_bytes}
use sample_db.Tx.LogRecord.RoundTrip.{length-set_int_bytes}
use sample_db.Tx.Transaction.{Transaction, Waits, block_size}
use sample_db.Tx.Transaction.Lookup.{Sees, set_int-logged}
use sample_db.Record.RecordPage.{
  RecordPage, empty_flag, used_flag, search_after, use_slot, set_flag, insert_after,
}
use sample_db.Record.RecordPage.Search.{flag_at, NoneBefore, FirstFrom, search_after-FirstFrom}

-- The page after the flag of slot `m` was set.
abbrev pub flagged : Page → ℕ → ℕ → ℤ → Page
flagged p size m flag = overwrite p (m * size) (encode_int flag)

pub flag_at-flagged_self :
    (p : Page) (size m : ℕ)
    → m * size + 4 ≤ length p.bytes
    → flag_at (flagged p size m used_flag) size m ≡ used_flag
flag_at-flagged_self p size m h =
    ap decode_int (slice-encode p.bytes (m * size) used_flag h)
    ∙ decode-encode used_flag (omega arith)

slots_apart : (n m s : ℕ) → 4 ≤ s → n < m → n * s + 4 ≤ m * s
slots_apart n m s h lt = grind arith

-- The flags of the other slots stay.
pub flag_at-flagged_ne :
    (p : Page) (size m k : ℕ) (flag : ℤ)
    → 4 ≤ size
    → k ≢ m
    → flag_at (flagged p size m flag) size k ≡ flag_at p size k
flag_at-flagged_ne p size m k flag four ne = elim (dec_lt k m) [
  | yes lt ↦ ap decode_int (
      slice-splice_before p.bytes (m * size) (encode_int flag) (k * size) 4
        (slots_apart k m size four lt))
  | no ge ↦
      ap (λ bs. decode_int (take 4 bs))
        (drop-splice_after p.bytes (m * size) (encode_int flag) (k * size)
          (rw (length-encode flag) (slots_apart m k size four (omega (arith, ge, ne)))))
]

-- Slot `m` was not used and is now; the flags of all other slots are what they were.
pub record Inserted (p q : Page) (size m : ℕ) : Type 0 where
  pub free : flag_at p size m ≡ empty_flag
  pub used : flag_at q size m ≡ used_flag
  pub others : (k : ℕ) → k ≢ m → flag_at q size k ≡ flag_at p size k

-- What `insertAfter` leaves, from slot `n` on: the first empty slot is now used, with its old flag
-- in the log, or nothing if no slot is empty.
abbrev pub Filled : Transaction → RecordPage → Page → List (List ℕ) → ℕ → Transaction × ℤ → Type 0
Filled t rp p bs n x =
    ((m : ℕ) × (q : Page) × (bytes : List ℕ) × (x.1 ≡ pos m)
      × (n ≤ m)
      × NoneBefore p rp.layout.slot_size empty_flag n m
      × Inserted p q rp.layout.slot_size m
      × Sees x.0 rp.blk q
      × Logs x.0.bm.fm x.0.bm.lm (bytes ∷ bs)
      × (log_bytes (set_int_record t.tx_num rp.blk (pos (m * rp.layout.slot_size)) empty_flag)
          ≡ ok bytes))
    ⊎ ((x ≡ (t, negsuc 0)) × ((m : ℕ) → NoneBefore p rp.layout.slot_size empty_flag n m))

module _ (env : Transaction → Waits) where
  use_slot-Filled :
      (t : Transaction) (rp : RecordPage) (p : Page) (bs : List (List ℕ)) (n : ℕ) (r : ℤ)
      → Sees t rp.blk p
      → length p.bytes ≡ block_size t
      → 4 ≤ rp.layout.slot_size
      → Logs t.bm.fm t.bm.lm bs
      → SizeIsRight t.bm.fm
      → length rp.blk.file_name + 32 ≤ block_size t
      → FirstFrom p rp.layout.slot_size empty_flag n r
      → Succeeds (Filled t rp p bs n) (use_slot env t rp r)
  unfolding use_slot set_flag
  use_slot-Filled t rp p bs n r h e four logs size fits (inr (none_free, none)) =
      rw none_free (inr (refl, none))
  use_slot-Filled t rp p bs n r h e four logs size fits (inl (m, at, le, inside, free, none)) =
      let (bytes, made, long) =
        length-set_int_bytes t.tx_num rp.blk (pos (m * rp.layout.slot_size)) empty_flag in
      rw at (
        Succeeds-bind
          (λ (t' : Transaction).
            Sees t' rp.blk (flagged p rp.layout.slot_size m used_flag)
            × Logs t'.bm.fm t'.bm.lm (bytes ∷ bs))
          (Filled t rp p bs n) _ _
          (set_int-logged env t rp.blk p (flagged p rp.layout.slot_size m used_flag)
            (m * rp.layout.slot_size) used_flag empty_flag bytes bs h logs size
            (get_int-fits p (m * rp.layout.slot_size) there ∙ ap ok free) made (omega (arith, long))
            (set_int-fits p (m * rp.layout.slot_size) used_flag there))
          λ t' g. inl (
            m,
            flagged p rp.layout.slot_size m used_flag,
            bytes,
            refl,
            le,
            none,
            record {
              free = free;
              used = flag_at-flagged_self p rp.layout.slot_size m there;
              others = λ k ne. flag_at-flagged_ne p rp.layout.slot_size m k used_flag four ne;
            },
            g.0,
            g.1,
            made,
          ))
    where
      room : (b n s : ℕ) → 4 ≤ s → suc n * s ≤ b → n * s + 4 ≤ b
      room b n s four le = grind arith

      there : m * rp.layout.slot_size + 4 ≤ length p.bytes
      there = room (length p.bytes) m rp.layout.slot_size four inside

  -- Insertion into a block that the transaction has locked exclusively and pinned returns: it marks
  -- the first slot after the one given that is not used, with an update record of the old flag in
  -- front of the log, and leaves the flags of all other slots; or, when no slot after it is free,
  -- it gives -1 and changes nothing. A slot has room for its flag, two more turns than the block
  -- has bytes are enough, and an update record of the block fits a block of the log: it
  -- has 32 bytes more than the name of the file.
  pub insert_after-Filled :
      (fuel : ℕ) (t : Transaction) (rp : RecordPage) (p : Page) (bs : List (List ℕ)) (n : ℕ)
      → Sees t rp.blk p
      → length p.bytes ≡ block_size t
      → 4 ≤ rp.layout.slot_size
      → Logs t.bm.fm t.bm.lm bs
      → SizeIsRight t.bm.fm
      → length rp.blk.file_name + 32 ≤ block_size t
      → length p.bytes < fuel
      → Succeeds (Filled t rp p bs n) (insert_after env (suc fuel) t rp (pos n +ℤ negsuc 0))
  unfolding insert_after
  insert_after-Filled fuel t rp p bs n h e four logs size fits lt =
      let (x, d, (same, first)) =
        Succeeds-eq
          (λ (x : Transaction × ℤ). (x.0 ≡ t) × FirstFrom p rp.layout.slot_size empty_flag n x.1)
          (search_after env (suc fuel) t rp (pos n +ℤ negsuc 0) empty_flag)
          (search_after-FirstFrom env fuel t rp p n empty_flag h e four lt) in
      rw d (
        subst (λ (t' : Transaction). Succeeds (Filled t rp p bs n) (use_slot env t' rp x.1))
          (sym same) (use_slot-Filled t rp p bs n x.1 h e four logs size fits first))
