-- ===== src/File/Page/RoundTrip.antt =====
-- What is written to a page is read back, and the bytes beside it stay.
use sample_db.Base.{
  ℕ, ◌+◌, ◌≤◌, ◌<◌, ◌≡◌, refl, ap, ◌∙◌, ℤ, pos, negsuc, Result, ok, err, arith, length, slice,
  length-splice, slice-splice_self, slice-splice_before, drop-splice_after, List, splice, ◌>>=◌,
}
use sample_db.File.Page.Words.{InInt32, half_mod, decode-encode, encode_int, decode_int}
use sample_db.File.Page.{Page, get_int, set_int, get_bytes, set_bytes, read_run}

abbrev pub overwrite : Page → ℕ → List ℕ → Page
overwrite p off bs = record { bytes = splice p.bytes off bs }

pub set_int-fits :
    (p : Page) (off : ℕ) (n : ℤ)
    → off + 4 ≤ length p.bytes
    → set_int p off n ≡ ok (record { bytes = splice p.bytes off (encode_int n) })
unfolding set_int
set_int-fits p off n h = ground arith

pub get_int-fits :
    (p : Page) (off : ℕ)
    → off + 4 ≤ length p.bytes
    → get_int p off ≡ ok (decode_int (slice off 4 p.bytes))
unfolding get_int
get_int-fits p off h = ground arith

-- Every write keeps the size of the page.
pub set_int-size :
    (p q : Page) (off : ℕ) (n : ℤ) → set_int p off n ≡ ok q → length q.bytes ≡ length p.bytes
unfolding set_int
set_int-size p q off n h = ground (arith, length-splice p.bytes off (encode_int n))

pub set_bytes-fits :
    (p : Page) (off : ℕ) (b : List ℕ)
    → off + 4 + length b ≤ length p.bytes
    → set_bytes p off b ≡ ok (overwrite (overwrite p off (encode_int (pos (length b)))) (off + 4) b)
unfolding set_bytes
set_bytes-fits p off b h = ground (arith, set_int-fits p off (pos (length b)))

pub set_bytes-size :
    (p q : Page) (off : ℕ) (b : List ℕ) → set_bytes p off b ≡ ok q → length q.bytes ≡ length p.bytes
unfolding set_bytes set_int
set_bytes-size p q off b h = ground (
  arith,
  length-splice p.bytes off (encode_int (pos (length b))),
  length-splice (splice p.bytes off (encode_int (pos (length b)))) (off + 4) b,
)

pub slice-encode :
    (xs : List ℕ) (off : ℕ) (n : ℤ)
    → off + 4 ≤ length xs
    → slice off 4 (splice xs off (encode_int n)) ≡ encode_int n
unfolding encode_int
slice-encode xs off n h = slice-splice_self xs off (encode_int n) h

-- A 32-bit `int` written where it fits is read back.
pub get_int-set_int :
    (p : Page) (off : ℕ) (n : ℤ)
    → off + 4 ≤ length p.bytes
    → InInt32 n
    → (set_int p off n >>= λ q. get_int q off) ≡ ok n
get_int-set_int p off n h r = rw (set_int-fits p off n h) (
    rw (get_int-fits q off (omega (arith, length-splice p.bytes off (encode_int n))))
      (ap ok (ap decode_int (slice-encode p.bytes off n h) ∙ decode-encode n r)))
  where
    q : Page
    q = overwrite p off (encode_int n)

-- Reads after the overwritten bytes.
pub get_int-after :
    (p : Page) (off : ℕ) (bs : List ℕ) (at : ℕ)
    → off + length bs ≤ at
    → get_int (overwrite p off bs) at ≡ get_int p at
unfolding get_int
get_int-after p off bs at h =
    rw (length-splice p.bytes off bs, drop-splice_after p.bytes off bs at h)

-- Reads before the overwritten bytes.
pub get_int-before :
    (p : Page) (off : ℕ) (bs : List ℕ) (at : ℕ)
    → at + 4 ≤ off
    → get_int (overwrite p off bs) at ≡ get_int p at
unfolding get_int
get_int-before p off bs at h =
    rw (length-splice p.bytes off bs, slice-splice_before p.bytes off bs at 4 h)

pub get_bytes-after :
    (p : Page) (off : ℕ) (bs : List ℕ) (at : ℕ)
    → off + length bs ≤ at
    → get_bytes (overwrite p off bs) at ≡ get_bytes p at
unfolding get_bytes
get_bytes-after p off bs at h = rw (get_int-after p off bs at h) (go (get_int p at))
  where
    run : (z : ℤ) → read_run (overwrite p off bs) at z ≡ read_run p at z
    run (negsuc k) = refl
    run (pos len) =
        rw (length-splice p.bytes off bs, drop-splice_after p.bytes off bs (at + 4) (omega arith))

    go :
        (r : Result ℤ)
        → (r >>= λ len. read_run (overwrite p off bs) at len) ≡ (r >>= λ len. read_run p at len)
    go (ok z) = run z
    go (err e) = refl

pub read_run-fits :
    (p : Page) (off len : ℕ)
    → off + 4 + len ≤ length p.bytes
    → read_run p off (pos len) ≡ ok (slice (off + 4) len p.bytes)
unfolding read_run
read_run-fits p off len h = ground arith

-- A byte string written where it fits, with its length before it, is read back.
pub get_bytes-set_bytes :
    (p : Page) (off : ℕ) (b : List ℕ)
    → off + 4 + length b ≤ length p.bytes
    → length b < half_mod
    → (set_bytes p off b >>= λ q. get_bytes q off) ≡ ok b
get_bytes-set_bytes p off b h r =
    rw (set_bytes-fits p off b h)
      (unfold get_bytes in rw header (rw (read_run-fits q off (length b) fits) (ap ok body)))
  where
    p' : Page
    p' = overwrite p off (encode_int (pos (length b)))

    q : Page
    q = overwrite p' (off + 4) b

    same : length p'.bytes ≡ length p.bytes
    same = length-splice p.bytes off (encode_int (pos (length b)))

    fits : off + 4 + length b ≤ length q.bytes
    fits = omega (arith, same, length-splice p'.bytes (off + 4) b)

    header : get_int q off ≡ ok (pos (length b))
    header =
        get_int-before p' (off + 4) b off (omega arith)
        ∙ get_int-fits p' off (omega (arith, same))
        ∙ ap ok (
            ap decode_int (slice-encode p.bytes off (pos (length b)) (omega arith))
            ∙ decode-encode (pos (length b)) r)

    body : slice (off + 4) (length b) q.bytes ≡ b
    body = slice-splice_self p'.bytes (off + 4) b (omega (arith, same))
