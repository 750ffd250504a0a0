-- ===== src/Logging/Records.antt =====
-- A log page: the boundary in its first four bytes, and from there to the end the records, the
-- newest first, each with its length before it.
use mathlib.Core.Path.{subst}
use sample_db.Base.{
  ℕ, ◌+◌, ◌≤◌, ◌<◌, ◌≡◌, sym, ◌∙◌, List, [], ◌∷◌, pos, ok, ◌>>=◌, length, length-splice, arith,
}
use sample_db.File.Page.{Page, get_int, set_int, get_bytes, set_bytes}
use sample_db.File.Page.Words.{encode_int, half_mod, length-encode}
use sample_db.File.Page.RoundTrip.{
  overwrite, set_int-fits, set_bytes-fits, get_int-set_int, get_bytes-set_bytes, get_bytes-after,
}

-- From position `b` to the end of the page stand these records.
abbrev pub Packed : Page → ℕ → List (List ℕ) → Type 0
Packed p b [] = b ≡ length p.bytes
Packed p b (r ∷ rs) =
    (get_bytes p b ≡ ok r) × (b + 4 + length r ≤ length p.bytes) × Packed p (b + 4 + length r) rs

-- A page of `s` bytes that holds these records.
pub record PageHolds (s : ℕ) (p : Page) (rs : List (List ℕ)) : Type 0 where
  pub boundary : ℕ
  pub size : length p.bytes ≡ s
  pub header : get_int p 0 ≡ ok (pos boundary)
  pub room : 4 ≤ boundary
  pub packed : Packed p boundary rs

pub Packed-le : (p : Page) (b : ℕ) (rs : List (List ℕ)) → Packed p b rs → b ≤ length p.bytes
Packed-le p b [] h = omega arith
Packed-le p b (r ∷ rs) h = omega (arith, h.1)

-- What is written before the records leaves them.
Packed-overwrite :
    (p : Page) (off : ℕ) (bs : List ℕ) (b : ℕ) (rs : List (List ℕ))
    → off + length bs ≤ b
    → Packed p b rs
    → Packed (overwrite p off bs) b rs
Packed-overwrite p off bs b [] le h = h ∙ sym (length-splice p.bytes off bs)
Packed-overwrite p off bs b (r ∷ rs) le h = (
  get_bytes-after p off bs b le ∙ h.0,
  rw (length-splice p.bytes off bs) h.1,
  Packed-overwrite p off bs (b + 4 + length r) rs (omega arith) h.2,
)

-- The page after record `r` went to position `off` and `off` to the boundary.
abbrev pub stored_run : Page → ℕ → List ℕ → Page
stored_run p off r = overwrite (overwrite p off (encode_int (pos (length r)))) (off + 4) r

abbrev pub pack : Page → ℕ → List ℕ → Page
pack p off r = overwrite (stored_run p off r) 0 (encode_int (pos off))

stored_run-length :
    (p : Page) (off : ℕ) (r : List ℕ) → length (stored_run p off r).bytes ≡ length p.bytes
stored_run-length p off r =
    length-splice (overwrite p off (encode_int (pos (length r)))).bytes (off + 4) r
    ∙ length-splice p.bytes off (encode_int (pos (length r)))

pack-length : (p : Page) (off : ℕ) (r : List ℕ) → length (pack p off r).bytes ≡ length p.bytes
pack-length p off r =
    length-splice (stored_run p off r).bytes 0 (encode_int (pos off)) ∙ stored_run-length p off r

stored_run-get :
    (p : Page) (off : ℕ) (r : List ℕ)
    → off + 4 + length r ≤ length p.bytes
    → length r < half_mod
    → get_bytes (stored_run p off r) off ≡ ok r
stored_run-get p off r h lt =
    subst (λ m. (m >>= λ q. get_bytes q off) ≡ ok r) (set_bytes-fits p off r h)
      (get_bytes-set_bytes p off r h lt)

pub pack-eq :
    (p : Page) (off : ℕ) (r : List ℕ)
    → off + 4 + length r ≤ length p.bytes
    → (set_bytes p off r ≡ ok (stored_run p off r))
      × (set_int (stored_run p off r) 0 (pos off) ≡ ok (pack p off r))
pack-eq p off r h = (
  set_bytes-fits p off r h,
  set_int-fits (stored_run p off r) 0 (pos off) (rw (stored_run-length p off r) (omega arith)),
)

pub header_of :
    (q : Page) (n : ℕ)
    → 4 ≤ length q.bytes
    → n < half_mod
    → get_int (overwrite q 0 (encode_int (pos n))) 0 ≡ ok (pos n)
header_of q n h lt =
    subst (λ m. (m >>= λ p. get_int p 0) ≡ ok (pos n)) (set_int-fits q 0 (pos n) (omega arith))
      (get_int-set_int q 0 (pos n) (omega arith) lt)

-- Packed below the records that are there, a record is the newest one.
pub pack-PageHolds :
    (s : ℕ) (p : Page) (rs : List (List ℕ)) (off : ℕ) (r : List ℕ)
    → (h : PageHolds s p rs) → h.boundary ≡ off + (length r + 4)
    → 4 ≤ off
    → s < half_mod
    → PageHolds s (pack p off r) (r ∷ rs)
pack-PageHolds s p rs off r h at room lt = record {
  boundary = off;
  size = pack-length p off r ∙ h.size;
  header =
      header_of (stored_run p off r) off (rw (stored_run-length p off r) (omega (arith, fits)))
        (omega (arith, fits, h.size));
  room = room;
  packed = (
    get_bytes-after (stored_run p off r) 0 (encode_int (pos off)) off
          (omega (arith, length-encode (pos off)))
        ∙ stored_run-get p off r fits (omega (arith, fits, h.size)),
    rw (pack-length p off r) fits,
    Packed-overwrite (stored_run p off r) 0 (encode_int (pos off)) (off + 4 + length r) rs
        (omega (arith, length-encode (pos off), length-encode (pos (length r))))
        (Packed-overwrite (overwrite p off (encode_int (pos (length r)))) (off + 4) r
          (off + 4 + length r) rs
          (omega (arith, length-encode (pos off), length-encode (pos (length r))))
          (Packed-overwrite p off (encode_int (pos (length r))) (off + 4 + length r) rs
            (omega (arith, length-encode (pos off), length-encode (pos (length r))))
            (subst (λ b. Packed p b rs) same h.packed))),
  );
}
  where
    le : h.boundary ≤ length p.bytes
    le = Packed-le p h.boundary rs h.packed

    same : h.boundary ≡ off + 4 + length r
    same = omega arith

    fits : off + 4 + length r ≤ length p.bytes
    fits = omega (arith, le)
