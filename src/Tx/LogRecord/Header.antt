-- ===== src/Tx/LogRecord/Header.antt =====
-- The fields before the value of an update record: what is written is read back.
use sample_db.Base.{
  ℕ, ◌+◌, ◌≤◌, ◌<◌, ◌≡◌, refl, ◌∙◌, inr, List, [], ◌∷◌, ◌++◌, Str, ℤ, pos, ok, arith, length,
  length-replicate,
}
use sample_db.File.BlockId.{BlockId}
use sample_db.File.Page.{Page, new_page, get_int, get_string, get_bytes, set_string}
use sample_db.File.Page.Words.{InInt32, half_mod, encode_int}
use sample_db.File.Page.Writes.{
  apply_writes, AllApart, AllBeyond, AllBeyond-apart, get_int-written, get_bytes-written,
  set_int-writes, set_bytes-writes, length-writes,
}
use sample_db.Tx.LogRecord.{write_header, read_header, bpos, opos}

-- The writes of the header, in their order.
abbrev pub header_writes : ℤ → ℤ → BlockId → ℤ → List (ℕ × List ℕ)
header_writes code tx_num blk offset =
    (0, encode_int code)
    ∷ (4, encode_int tx_num)
    ∷ (8, encode_int (pos (length blk.file_name)))
    ∷ (12, blk.file_name)
    ∷ (bpos blk.file_name, encode_int blk.number)
    ∷ (opos blk.file_name, encode_int offset)
    ∷ []

pub length-new_page : (n : ℕ) → length (new_page n).bytes ≡ n
unfolding new_page
length-new_page n = length-replicate n 0

pub write_header-writes :
    (n : ℕ) (code tx_num : ℤ) (blk : BlockId) (offset : ℤ)
    → opos blk.file_name + 4 ≤ n
    → write_header n code tx_num blk offset
      ≡ ok (apply_writes (new_page n) (header_writes code tx_num blk offset))
unfolding write_header set_string
write_header-writes n code tx_num blk offset h =
    let name = blk.file_name in
    let size = length-new_page n in
    let w : List (ℕ × List ℕ) = (0, encode_int code) ∷ (4, encode_int tx_num) ∷ [] in
    let v : List (ℕ × List ℕ) = w ++ (8, encode_int (pos (length name))) ∷ (12, name) ∷ [] in
    rw (set_int-writes (new_page n) [] 0 code (omega (arith, size))) (
      rw (set_int-writes (new_page n) ((0, encode_int code) ∷ []) 4 tx_num (omega (arith, size))) (
        rw (set_bytes-writes (new_page n) w 8 name (omega (arith, size))) (
          rw (set_int-writes (new_page n) v (bpos name) blk.number (omega (arith, size))) (
            set_int-writes (new_page n) (v ++ (bpos name, encode_int blk.number) ∷ []) (opos name)
              offset (omega (arith, size))))))

read_header-eq :
    (p : Page) (tx_num : ℤ) (name : Str) (number offset : ℤ)
    → get_int p 4 ≡ ok tx_num
    → get_bytes p 8 ≡ ok name
    → get_int p (bpos name) ≡ ok number
    → get_int p (opos name) ≡ ok offset
    → read_header p ≡ ok (tx_num, record { file_name = name; number = number }, offset)
unfolding read_header get_string
read_header-eq p tx_num name number offset a b c d = rw (a, b, c, d) refl

-- Every number is one of 32 bits, and the name is shorter than the largest length.
abbrev pub HeaderFits : ℤ → BlockId → ℤ → Type 0
HeaderFits tx_num blk offset =
    InInt32 tx_num × (length blk.file_name < half_mod) × InInt32 blk.number × InInt32 offset

-- A page of `n` bytes with a header and the writes `ws` after it.
abbrev pub written : ℕ → ℤ → ℤ → BlockId → ℤ → List (ℕ × List ℕ) → Page
written n code tx_num blk offset ws =
    apply_writes (apply_writes (new_page n) (header_writes code tx_num blk offset)) ws

-- Later writes behind the header do not change what is read of it.
module _ (n : ℕ) (code tx_num : ℤ) (blk : BlockId) (offset : ℤ) (ws : List (ℕ × List ℕ))
    (h : opos blk.file_name + 4 ≤ n) (b : AllBeyond (opos blk.file_name + 4) ws) where
  abbrev page : Page
  page = written n code tx_num blk offset ws

  abbrev name : Str
  name = blk.file_name

  -- The page before the write at each field, and the writes after it.
  abbrev before_name : Page
  before_name = apply_writes (new_page n) ((0, encode_int code) ∷ (4, encode_int tx_num) ∷ [])

  abbrev before_number : Page
  before_number = apply_writes before_name ((8, encode_int (pos (length name))) ∷ (12, name) ∷ [])

  abbrev before_offset : Page
  before_offset = apply_writes before_number ((bpos name, encode_int blk.number) ∷ [])

  abbrev after_number : List (ℕ × List ℕ)
  after_number = (opos name, encode_int offset) ∷ ws

  abbrev after_name : List (ℕ × List ℕ)
  after_name = (bpos name, encode_int blk.number) ∷ after_number

  abbrev after_tx : List (ℕ × List ℕ)
  after_tx = (8, encode_int (pos (length name))) ∷ (12, name) ∷ after_name

  size : (vs : List (ℕ × List ℕ)) → length (apply_writes (new_page n) vs).bytes ≡ n
  size vs = length-writes (new_page n) vs ∙ length-new_page n

  apart : (at len : ℕ) → at + len ≤ opos name + 4 → AllApart at len ws
  apart at len k = AllBeyond-apart at len (opos name + 4) ws k b

  -- A place in front of the block number avoids the writes from there on.
  apart_name : (at len : ℕ) → at + len ≤ bpos name → AllApart at len after_name
  apart_name at len k = (inr k, (inr (omega arith), apart at len (omega arith)))

  apart_tx : (at : ℕ) → at + 4 ≤ 8 → AllApart at 4 after_tx
  apart_tx at k = (inr k, (inr (omega arith), apart_name at 4 (omega arith)))

  pub read_code : InInt32 code → get_int (written n code tx_num blk offset ws) 0 ≡ ok code
  read_code r =
      get_int-written (new_page n) 0 code ((4, encode_int tx_num) ∷ after_tx)
        (omega (arith, size [])) r (inr (omega arith), apart_tx 0 (omega arith))

  read_tx : InInt32 tx_num → get_int page 4 ≡ ok tx_num
  read_tx r =
      get_int-written (apply_writes (new_page n) ((0, encode_int code) ∷ [])) 4 tx_num after_tx
        (rw (size ((0, encode_int code) ∷ [])) (omega arith)) r (apart_tx 4 (omega arith))

  read_name : length name < half_mod → get_bytes page 8 ≡ ok name
  read_name r =
      get_bytes-written before_name 8 name after_name
        (rw (size ((0, encode_int code) ∷ (4, encode_int tx_num) ∷ [])) (omega arith)) r
        (apart_name 8 4 (omega arith)) (apart_name 12 (length name) (omega arith))

  read_number : InInt32 blk.number → get_int page (bpos name) ≡ ok blk.number
  read_number r =
      get_int-written before_number (bpos name) blk.number after_number
        (rw (length-writes before_name ((8, encode_int (pos (length name))) ∷ (12, name) ∷ []))
          (rw (size ((0, encode_int code) ∷ (4, encode_int tx_num) ∷ [])) (omega arith)))
        r (inr (omega arith), apart (bpos name) 4 (omega arith))

  read_offset : InInt32 offset → get_int page (opos name) ≡ ok offset
  read_offset r =
      get_int-written before_offset (opos name) offset ws
        (rw
          (size (
            (0, encode_int code)
            ∷ (4, encode_int tx_num)
            ∷ (8, encode_int (pos (length name)))
            ∷ (12, name)
            ∷ (bpos name, encode_int blk.number)
            ∷ []))
          (omega arith))
        r (apart (opos name) 4 (omega arith))

  pub read_header-written :
      HeaderFits tx_num blk offset
      → read_header (written n code tx_num blk offset ws) ≡ ok (tx_num, blk, offset)
  read_header-written f =
      read_header-eq page tx_num name blk.number offset (read_tx f.0) (read_name f.1)
        (read_number f.2) (read_offset f.3)
