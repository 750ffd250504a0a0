-- ===== src/Tx/LogRecord/Strings.antt =====
-- A string update record is not read back: the value is written behind room for a string of its
-- length, and read right behind the offset.
use sample_db.Base.{
  ℕ, ◌+◌, ◌≤◌, ◌≡◌, refl, ◌∙◌, inl, inr, List, [], ◌∷◌, ◌++◌, Str, ℤ, pos, ok, some, ◌>>=◌, arith,
  length,
}
use sample_db.File.BlockId.{BlockId}
use sample_db.File.Page.{Page, new_page, get_int, get_string, set_string, get_bytes, read_run}
use sample_db.File.Page.Words.{encode_int, length-encode}
use sample_db.File.Page.Writes.{set_bytes-writes, length-writes, get_int-apart, get_int-new_page}
use sample_db.Tx.LogRecord.{
  set_string_record, set_string_bytes, log_bytes, create_log_record, read_record, read_set_string,
  read_header, opos,
}
use sample_db.Tx.LogRecord.Header.{
  header_writes, write_header-writes, HeaderFits, length-new_page, written, read_code,
  read_header-written,
}

module _ (tx : ℤ) (blk : BlockId) (offset : ℤ) (str : Str) where
  abbrev vpos : ℕ
  vpos = opos blk.file_name + (4 + length str)

  abbrev size : ℕ
  size = vpos + (4 + length str)

  abbrev value_writes : List (ℕ × List ℕ)
  value_writes = (vpos, encode_int (pos (length str))) ∷ (vpos + 4, str) ∷ []

  abbrev string_page : Page
  string_page = written size (pos 5) tx blk offset value_writes

  set_string_bytes-eq : set_string_bytes tx blk offset str ≡ ok string_page.bytes
  unfolding set_string_bytes set_string
  set_string_bytes-eq = rw (write_header-writes size (pos 5) tx blk offset (omega arith)) (
      rw
        (set_bytes-writes (new_page size) (header_writes (pos 5) tx blk offset) vpos str
          (omega (arith, length-new_page size)))
        refl)

  -- The four bytes that the reader takes for the length were never written.
  unwritten : 4 ≤ length str → get_int string_page (opos blk.file_name + 4) ≡ ok (pos 0)
  unwritten h =
      get_int-apart (new_page size) (opos blk.file_name + 4)
        (header_writes (pos 5) tx blk offset ++ value_writes)
        (
          inl (omega (arith, length-encode (pos 5))),
          (
            inl (omega (arith, length-encode tx)),
            (
              inl (omega (arith, length-encode (pos (length blk.file_name)))),
              (
                inl (omega arith),
                (
                  inl (omega (arith, length-encode blk.number)),
                  (
                    inl (omega (arith, length-encode offset)),
                    (inr (omega arith), (inr (omega arith), tt)),
                  ),
                ),
              ),
            ),
          ),
        )
      ∙ get_int-new_page size (opos blk.file_name + 4) (omega arith)

empty_run :
    (p : Page) (at : ℕ)
    → at + 4 ≤ length p.bytes
    → get_int p at ≡ ok (pos 0)
    → get_string p at ≡ ok []
unfolding get_string get_bytes read_run
empty_run p at h e = rw e (ground arith)

read_update : (p : Page) → read_record p (pos 5) ≡ read_set_string p
unfolding read_record
read_update p = refl

read_set_string-eq :
    (p : Page) (tx : ℤ) (blk : BlockId) (offset : ℤ) (s : Str)
    → read_header p ≡ ok (tx, blk, offset)
    → get_string p (opos blk.file_name + 4) ≡ ok s
    → read_set_string p ≡ ok (some (set_string_record tx blk offset s))
unfolding read_set_string
read_set_string-eq p tx blk offset s h g = rw (h, g) refl

-- The record of an update of a string that has at least four characters, once read back, restores
-- the empty string, whatever the old value was.
pub create-set_string_bytes :
    (tx : ℤ) (blk : BlockId) (offset : ℤ) (str : Str)
    → HeaderFits tx blk offset
    → 4 ≤ length str
    → (do bytes ← log_bytes (set_string_record tx blk offset str); create_log_record bytes)
      ≡ ok (some (set_string_record tx blk offset []))
unfolding log_bytes create_log_record
create-set_string_bytes tx blk offset str f h = rw (set_string_bytes-eq tx blk offset str) (
    rw (read_code n (pos 5) tx blk offset ws (omega arith) (omega arith) (omega arith)) (
      read_update p
      ∙ read_set_string-eq p tx blk offset []
          (read_header-written n (pos 5) tx blk offset ws (omega arith) (omega arith) f)
          (empty_run p (opos blk.file_name + 4) (rw bytes (omega arith))
            (unwritten tx blk offset str h))))
  where
    n : ℕ
    n = size tx blk offset str

    ws : List (ℕ × List ℕ)
    ws = value_writes tx blk offset str

    p : Page
    p = string_page tx blk offset str

    bytes : length p.bytes ≡ n
    bytes =
        length-writes (new_page n) (header_writes (pos 5) tx blk offset ++ ws) ∙ length-new_page n
