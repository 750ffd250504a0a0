-- ===== src/File/Page/Writes.antt =====
-- A page that was written at several places: what is read at a place that later writes avoid.
use sample_db.Base.{
  ℕ, ◌+◌, ◌≤◌, ◌<◌, ◌≡◌, refl, ap, ◌∙◌, ◌⊎◌, inl, inr, List, [], ◌∷◌, ◌++◌, ℤ, pos, ok, arith,
  length, slice, length-splice, slice-splice_self, take, slice-splice_before, drop-splice_after,
  slice-replicate, length-replicate,
}
use sample_db.File.Page.Words.{InInt32, half_mod, decode-encode, encode_int, decode_int}
use sample_db.File.Page.{Page, get_int, set_int, get_bytes, set_bytes, new_page}
use sample_db.File.Page.RoundTrip.{
  overwrite, set_int-fits, set_bytes-fits, get_int-fits, get_int-before, get_int-after,
  slice-encode, read_run-fits,
}

-- Writes in the order in which they are made.
abbrev pub apply_writes : Page → List (ℕ × List ℕ) → Page
apply_writes p [] = p
apply_writes p ((off, bs) ∷ ws) = apply_writes (overwrite p off bs) ws

-- Every write ends before these bytes or begins after them.
abbrev pub AllApart : ℕ → ℕ → List (ℕ × List ℕ) → Type 0
AllApart at len [] = Unit {0}
AllApart at len ((off, bs) ∷ ws) = ((off + length bs ≤ at) ⊎ (at + len ≤ off)) × AllApart at len ws

pub length-writes :
    (p : Page) (ws : List (ℕ × List ℕ)) → length (apply_writes p ws).bytes ≡ length p.bytes
length-writes p [] = refl
length-writes p ((off, bs) ∷ ws) =
    length-writes (overwrite p off bs) ws ∙ length-splice p.bytes off bs

pub get_int-apart :
    (p : Page) (at : ℕ) (ws : List (ℕ × List ℕ))
    → AllApart at 4 ws
    → get_int (apply_writes p ws) at ≡ get_int p at
get_int-apart p at [] a = refl
get_int-apart p at ((off, bs) ∷ ws) (inl h, a) =
    get_int-apart (overwrite p off bs) at ws a ∙ get_int-after p off bs at h
get_int-apart p at ((off, bs) ∷ ws) (inr h, a) =
    get_int-apart (overwrite p off bs) at ws a ∙ get_int-before p off bs at h

slice-apart :
    (p : Page) (at len : ℕ) (ws : List (ℕ × List ℕ))
    → AllApart at len ws
    → slice at len (apply_writes p ws).bytes ≡ slice at len p.bytes
slice-apart p at len [] a = refl
slice-apart p at len ((off, bs) ∷ ws) (inl h, a) =
    slice-apart (overwrite p off bs) at len ws a
    ∙ ap (take len) (drop-splice_after p.bytes off bs at h)
slice-apart p at len ((off, bs) ∷ ws) (inr h, a) =
    slice-apart (overwrite p off bs) at len ws a ∙ slice-splice_before p.bytes off bs at len h

-- An `int` that later writes avoid is read back.
pub get_int-written :
    (p : Page) (off : ℕ) (n : ℤ) (ws : List (ℕ × List ℕ))
    → off + 4 ≤ length p.bytes
    → InInt32 n
    → AllApart off 4 ws
    → get_int (apply_writes (overwrite p off (encode_int n)) ws) off ≡ ok n
get_int-written p off n ws h r a =
    get_int-apart (overwrite p off (encode_int n)) off ws a
    ∙ get_int-fits (overwrite p off (encode_int n)) off
        (omega (arith, length-splice p.bytes off (encode_int n)))
    ∙ ap ok (ap decode_int (slice-encode p.bytes off n h) ∙ decode-encode n r)

-- So are the bytes under a length, and they are then what `getBytes` gives.
pub get_bytes-written :
    (p : Page) (off : ℕ) (b : List ℕ) (ws : List (ℕ × List ℕ))
    → off + 4 + length b ≤ length p.bytes
    → length b < half_mod
    → AllApart off 4 ws
    → AllApart (off + 4) (length b) ws
    → get_bytes
        (apply_writes (overwrite (overwrite p off (encode_int (pos (length b)))) (off + 4) b) ws)
        off
      ≡ ok b
unfolding get_bytes
get_bytes-written p off b ws h r a c =
    rw
      (get_int-written p off (pos (length b)) ((off + 4, b) ∷ ws) (omega arith) r
        (inr (omega arith), a))
      (rw (read_run-fits q off (length b) (omega (arith, size))) (
        ap ok (
          slice-apart p' (off + 4) (length b) ws c
          ∙ slice-splice_self p1.bytes (off + 4) b
              (omega (arith, length-splice p.bytes off (encode_int (pos (length b))))))))
  where
    p1 : Page
    p1 = overwrite p off (encode_int (pos (length b)))

    p' : Page
    p' = overwrite p1 (off + 4) b

    q : Page
    q = apply_writes p' ws

    size : length q.bytes ≡ length p.bytes
    size =
        length-writes p1 ((off + 4, b) ∷ ws)
        ∙ length-splice p.bytes off (encode_int (pos (length b)))

-- Where nothing was written, a new page reads 0.
pub get_int-new_page : (n at : ℕ) → at + 4 ≤ n → get_int (new_page n) at ≡ ok (pos 0)
unfolding new_page decode_int
get_int-new_page n at h =
    get_int-fits (new_page n) at (rw (length-replicate {A = ℕ} n 0) h)
    ∙ ap ok (ap decode_int (slice-replicate n at 4 0 h))

-- Every write begins at or after this place.
abbrev pub AllBeyond : ℕ → List (ℕ × List ℕ) → Type 0
AllBeyond at [] = Unit {0}
AllBeyond at ((off, bs) ∷ ws) = (at ≤ off) × AllBeyond at ws

pub AllBeyond-apart :
    (at len end : ℕ) (ws : List (ℕ × List ℕ))
    → at + len ≤ end
    → AllBeyond end ws
    → AllApart at len ws
AllBeyond-apart at len end [] h b = tt
AllBeyond-apart at len end ((off, bs) ∷ ws) h b =
    (inr (omega arith), AllBeyond-apart at len end ws h b.1)

writes-snoc :
    (p : Page) (ws : List (ℕ × List ℕ)) (off : ℕ) (bs : List ℕ)
    → overwrite (apply_writes p ws) off bs ≡ apply_writes p (ws ++ (off, bs) ∷ [])
writes-snoc p [] off bs = refl
writes-snoc p ((o, b) ∷ ws) off bs = writes-snoc (overwrite p o b) ws off bs

-- One more write that fits.
pub set_int-writes :
    (p : Page) (ws : List (ℕ × List ℕ)) (off : ℕ) (n : ℤ)
    → off + 4 ≤ length p.bytes
    → set_int (apply_writes p ws) off n ≡ ok (apply_writes p (ws ++ (off, encode_int n) ∷ []))
set_int-writes p ws off n h =
    set_int-fits (apply_writes p ws) off n (rw (length-writes p ws) h)
    ∙ ap ok (writes-snoc p ws off (encode_int n))

pub set_bytes-writes :
    (p : Page) (ws : List (ℕ × List ℕ)) (off : ℕ) (b : List ℕ)
    → off + 4 + length b ≤ length p.bytes
    → set_bytes (apply_writes p ws) off b
      ≡ ok (
          apply_writes (apply_writes p ws) ((off, encode_int (pos (length b))) ∷ (off + 4, b) ∷ []))
set_bytes-writes p ws off b h = set_bytes-fits (apply_writes p ws) off b (rw (length-writes p ws) h)
