-- ===== src/File/Page.antt =====
-- file/Page.cpp: typed reads and writes in a byte buffer. An `int` is four bytes, least
-- significant first, in two's complement. Offsets are the non-negative ones that callers pass.
pub mod Words
pub mod RoundTrip
pub mod Writes
use sample_db.Base.{
  ℕ, suc, ◌+◌, List, [], ◌∷◌, ◌≡◌, Bool, Str, ℤ, pos, negsuc, Result, ok, err, fault, guard, ◌>>=◌,
  ◌>>◌, length, slice, splice, replicate, leb, ltb, if◌then◌else◌,
}
use Words.{encode_int, decode_int}

pub record Page : Type 0 where
  pub bytes : List ℕ

abbrev pub size_of_int : ℕ
size_of_int = 4

-- `Page(int blocksize)`: a zeroed buffer.
unfoldable pub new_page : ℕ → Page
new_page n = record { bytes = replicate n 0 }

unfoldable pub get_int : Page → ℕ → Result ℤ
unfolding decode_int
get_int p offset =
    if ltb (length p.bytes) (offset + size_of_int)
    then err fault
    else ok (decode_int (slice offset size_of_int p.bytes))

unfoldable pub set_int : Page → ℕ → ℤ → Result Page
unfolding encode_int splice
set_int p offset n =
    if ltb (length p.bytes) (offset + size_of_int)
    then err fault
    else ok (record { bytes = splice p.bytes offset (encode_int n) })

-- `getBytes` after the length is read: a negative length ends in a failure as well.
unfoldable pub read_run : Page → ℕ → ℤ → Result (List ℕ)
read_run p offset (negsuc k) = err fault
read_run p offset (pos len) =
    if ltb (length p.bytes) (offset + size_of_int + len)
    then err fault
    else ok (slice (offset + size_of_int) len p.bytes)

unfoldable pub get_bytes : Page → ℕ → Result (List ℕ)
unfolding read_run
get_bytes p offset = do len ← get_int p offset; read_run p offset len

unfoldable pub set_bytes : Page → ℕ → List ℕ → Result Page
unfolding splice
set_bytes p offset b =
    if ltb (length p.bytes) (offset + size_of_int + length b) then err fault else do
      q ← set_int p offset (pos (length b))
      ok (record { bytes = splice q.bytes (offset + size_of_int) b })

unfoldable pub get_string : Page → ℕ → Result Str
get_string p offset = get_bytes p offset

unfoldable pub set_string : Page → ℕ → Str → Result Page
set_string p offset s = set_bytes p offset s

-- `maxLength(strlen)`: the room that a string of this length takes.
abbrev pub max_length : ℕ → ℕ
max_length strlen = size_of_int + strlen
