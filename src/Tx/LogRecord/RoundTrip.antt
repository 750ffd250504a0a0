-- ===== src/Tx/LogRecord/RoundTrip.antt =====
-- A record that is written to the log is the one that is read from it, but for string updates.
use sample_db.Base.{
  ℕ, ◌+◌, ◌≡◌, refl, ◌∙◌, inr, List, [], ◌∷◌, ℤ, pos, ok, some, ◌>>=◌, arith, length,
}
use sample_db.File.BlockId.{BlockId}
use sample_db.File.Page.{Page, new_page, get_int, set_int}
use sample_db.File.Page.Words.{InInt32, encode_int}
use sample_db.File.Page.Writes.{apply_writes, get_int-written, set_int-writes, length-writes}
use sample_db.Tx.LogRecord.{
  LogRecord, checkpoint, start, commit, rollback, set_int_record, set_string_record,
  checkpoint_bytes, tx_bytes, set_int_bytes, log_bytes, create_log_record, read_record,
  read_set_int, opos,
}
use sample_db.Tx.LogRecord.Header.{
  header_writes, write_header-writes, HeaderFits, length-new_page, written, read_code,
  read_header-written,
}

-- The ranges that a record's fields must have, and the records that the log reads back.
abbrev pub ReadsBack : LogRecord → Type 0
ReadsBack checkpoint = Unit {0}
ReadsBack (start tx) = InInt32 tx
ReadsBack (commit tx) = InInt32 tx
ReadsBack (rollback tx) = InInt32 tx
ReadsBack (set_int_record tx blk offset val) = HeaderFits tx blk offset × InInt32 val
ReadsBack (set_string_record tx blk offset val) = ⊥

tx_bytes-eq :
    (code tx : ℤ)
    → tx_bytes code tx
      ≡ ok (apply_writes (new_page 8) ((0, encode_int code) ∷ (4, encode_int tx) ∷ [])).bytes
unfolding tx_bytes
tx_bytes-eq code tx =
    rw (set_int-writes (new_page 8) [] 0 code (omega (arith, length-new_page 8))) (
      rw
        (set_int-writes (new_page 8) ((0, encode_int code) ∷ []) 4 tx
          (omega (arith, length-new_page 8)))
        refl)

abbrev tx_page : ℤ → ℤ → Page
tx_page code tx = apply_writes (new_page 8) ((0, encode_int code) ∷ (4, encode_int tx) ∷ [])

read_tx_page :
    (code tx : ℤ)
    → InInt32 code
    → InInt32 tx
    → (get_int (tx_page code tx) 0 ≡ ok code) × (get_int (tx_page code tx) 4 ≡ ok tx)
read_tx_page code tx c t = (
  get_int-written (new_page 8) 0 code ((4, encode_int tx) ∷ []) (omega (arith, length-new_page 8)) c
      (inr (omega arith), tt),
  get_int-written (apply_writes (new_page 8) ((0, encode_int code) ∷ [])) 4 tx []
      (omega (arith, length-writes (new_page 8) ((0, encode_int code) ∷ []), length-new_page 8)) t
      tt,
)

-- The page of an update record, and what it is read as.
module _ (tx : ℤ) (blk : BlockId) (offset val : ℤ) where
  abbrev vpos : ℕ
  vpos = opos blk.file_name + 4

  abbrev int_page : Page
  int_page = written (vpos + 4) (pos 4) tx blk offset ((vpos, encode_int val) ∷ [])

  abbrev int_header : Page
  int_header = written (vpos + 4) (pos 4) tx blk offset []

  set_int_bytes-eq : set_int_bytes tx blk offset val ≡ ok int_page.bytes
  unfolding set_int_bytes
  set_int_bytes-eq = rw (write_header-writes (vpos + 4) (pos 4) tx blk offset (omega arith)) (
      rw
        (set_int-writes (new_page (vpos + 4)) (header_writes (pos 4) tx blk offset) vpos val
          (omega (arith, length-new_page (vpos + 4))))
        refl)

  read_val : InInt32 val → get_int int_page vpos ≡ ok val
  read_val r =
      get_int-written int_header vpos val []
        (rw
          (
            length-writes (new_page (vpos + 4)) (header_writes (pos 4) tx blk offset),
            length-new_page (vpos + 4),
          )
          (omega arith))
        r tt

  read_set_int-eq :
      HeaderFits tx blk offset
      → InInt32 val
      → read_set_int int_page ≡ ok (some (set_int_record tx blk offset val))
  unfolding read_set_int
  read_set_int-eq f r =
      rw
        (read_header-written (vpos + 4) (pos 4) tx blk offset ((vpos, encode_int val) ∷ [])
          (omega arith) (omega arith) f)
        (rw (read_val r) refl)

read_tx_record :
    (p : Page) (code tx : ℤ)
    → get_int p 4 ≡ ok tx
    → (code ≡ pos 1 → read_record p code ≡ ok (some (start tx)))
      × (code ≡ pos 2 → read_record p code ≡ ok (some (commit tx)))
      × (code ≡ pos 3 → read_record p code ≡ ok (some (rollback tx)))
unfolding read_record
read_tx_record p code tx h = (λ e. ground arith, λ e. ground arith, λ e. ground arith)

read_update : (p : Page) → read_record p (pos 4) ≡ read_set_int p
unfolding read_record
read_update p = refl

checkpoint_read : (do bytes ← checkpoint_bytes; create_log_record bytes) ≡ ok (some checkpoint)
unfolding checkpoint_bytes create_log_record read_record new_page get_int set_int
checkpoint_read = refl

-- A checkpoint, start, commit, rollback or integer update record whose numbers are 32-bit integers
-- is read back from the bytes that are written for it.
pub create-log_bytes :
    (r : LogRecord) → ReadsBack r → (do bytes ← log_bytes r; create_log_record bytes) ≡ ok (some r)
unfolding log_bytes create_log_record
create-log_bytes checkpoint h = checkpoint_read
create-log_bytes (start tx) h =
    let c = read_tx_page (pos 1) tx (omega arith) h in
    rw (tx_bytes-eq (pos 1) tx)
      (rw c.0 ((read_tx_record (tx_page (pos 1) tx) (pos 1) tx c.1).0 refl))
create-log_bytes (commit tx) h =
    let c = read_tx_page (pos 2) tx (omega arith) h in
    rw (tx_bytes-eq (pos 2) tx)
      (rw c.0 ((read_tx_record (tx_page (pos 2) tx) (pos 2) tx c.1).1 refl))
create-log_bytes (rollback tx) h =
    let c = read_tx_page (pos 3) tx (omega arith) h in
    rw (tx_bytes-eq (pos 3) tx)
      (rw c.0 ((read_tx_record (tx_page (pos 3) tx) (pos 3) tx c.1).2 refl))
create-log_bytes (set_int_record tx blk offset val) h =
    let v = opos blk.file_name + 4 in
    rw (set_int_bytes-eq tx blk offset val) (
      rw
        (read_code (v + 4) (pos 4) tx blk offset ((v, encode_int val) ∷ []) (omega arith)
          (omega arith) (omega arith))
        (read_update (int_page tx blk offset val) ∙ read_set_int-eq tx blk offset val h.0 h.1))
create-log_bytes (set_string_record tx blk offset val) h = absurd h

-- The bytes of an update record of an integer: 24 more than the name of the file has.
pub length-set_int_bytes :
    (tx : ℤ) (blk : BlockId) (offset val : ℤ)
    → (bytes : List ℕ) × (log_bytes (set_int_record tx blk offset val) ≡ ok bytes)
      × (length bytes ≡ length blk.file_name + 24)
unfolding log_bytes
length-set_int_bytes tx blk offset val = (
  (int_page tx blk offset val).bytes,
  set_int_bytes-eq tx blk offset val,
  rw
      (
        length-writes (int_header tx blk offset val)
            ((vpos tx blk offset val, encode_int val) ∷ []),
        length-writes (new_page (vpos tx blk offset val + 4)) (header_writes (pos 4) tx blk offset),
        length-new_page (vpos tx blk offset val + 4),
      )
      (omega arith),
)
