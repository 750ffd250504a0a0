-- ===== src/Scan/SelectScan/Rows.antt =====
-- The rows that a scan gives, one `next` after the other, and those of a select scan.
use sample_db.Base.{
  ℕ, zero, suc, ◌<◌, ◌≤◌, ◌≡◌, refl, ◌∙◌, List, [], ◌∷◌, true, false, ok, length, arith,
}
use sample_db.Scan.Predicate.{Predicate, Row, is_satisfied}
use sample_db.Scan.Interface.{ScanOps}
use sample_db.Scan.SelectScan.{next_row, select_scan}

-- From a state, `next` gives these rows in order, and then no more.
abbrev pub Yields : {S : Type 0} → ScanOps S → S → List Row → Type 0
Yields {S} scan s [] = (s' : S) × (scan.next s ≡ ok (s', false))
Yields {S} scan s (r ∷ rs) =
    (s' : S) × (scan.next s ≡ ok (s', true)) × (scan.get_value s' ≡ r) × Yields scan s' rs

-- The test of each row returns: which of the rows satisfy the predicate.
pub data Chosen (pred : Predicate) : List Row → List Row → Type 0 where
  none : Chosen pred [] []
  take :
      {r : Row} {rs qs : List Row}
      → is_satisfied pred r ≡ ok true
      → Chosen pred rs qs
      → Chosen pred (r ∷ rs) (r ∷ qs)
  skip :
      {r : Row} {rs qs : List Row}
      → is_satisfied pred r ≡ ok false
      → Chosen pred rs qs
      → Chosen pred (r ∷ rs) qs

-- What the next call gives with fuel `m`, and the calls after it with fuel `n`.
abbrev Goes : {S : Type 0} → ScanOps S → Predicate → ℕ → ℕ → S → List Row → Type 0
Goes {S} scan pred m n s [] = (s' : S) × (next_row scan pred m s ≡ ok (s', false))
Goes {S} scan pred m n s (r ∷ rs) =
    (s' : S) × (next_row scan pred m s ≡ ok (s', true))
    × (scan.get_value s' ≡ r)
    × Yields (select_scan scan pred n) s' rs

Goes-Yields :
    {S : Type 0} (scan : ScanOps S) (pred : Predicate) (n : ℕ) (s : S) (qs : List Row)
    → Goes scan pred n n s qs
    → Yields (select_scan scan pred n) s qs
Goes-Yields scan pred n s [] g = g
Goes-Yields scan pred n s (q ∷ qs) g = g

skip-Goes :
    {S : Type 0} (scan : ScanOps S) (pred : Predicate) (m n : ℕ) (s s' : S) (qs : List Row)
    → next_row scan pred (suc m) s ≡ next_row scan pred m s'
    → Goes scan pred m n s' qs
    → Goes scan pred (suc m) n s qs
skip-Goes scan pred m n s s' [] e g = (g.0, e ∙ g.1)
skip-Goes scan pred m n s s' (q ∷ qs) e g = (g.0, e ∙ g.1, g.2, g.3)

next_row-Goes :
    {S : Type 0} (scan : ScanOps S) (pred : Predicate) (m n : ℕ) (s : S) {rs qs : List Row}
    → Chosen pred rs qs
    → Yields scan s rs
    → length rs < m
    → m ≤ n
    → Goes scan pred m n s qs
unfolding next_row
next_row-Goes scan pred zero n s c y lt le = absurd (omega arith)
next_row-Goes scan pred (suc m) n s none (s', e) lt le = (s', rw e refl)
next_row-Goes scan pred (suc m) n s (take {r = r} {qs = qs} h c) (s', e, v, y) lt le = (
  s',
  rw (e, v, h) refl,
  v,
  Goes-Yields scan pred n s' qs (next_row-Goes scan pred n n s' c y (omega arith) (omega arith)),
)
next_row-Goes scan pred (suc m) n s (skip {r = r} {qs = qs} h c) (s', e, v, y) lt le =
    skip-Goes scan pred m n s s' qs (rw (e, v, h) refl)
      (next_row-Goes scan pred m n s' c y (omega arith) (omega arith))

-- Where the test of every row returns, a select scan gives, in order, the rows that satisfy the
-- predicate and no others, and then no more; the loop of `next` takes fewer turns than there are
-- rows, plus two.
pub select_scan-Yields :
    {S : Type 0} (scan : ScanOps S) (pred : Predicate) (n : ℕ) (s : S) {rs qs : List Row}
    → Chosen pred rs qs
    → Yields scan s rs
    → length rs < n
    → Yields (select_scan scan pred n) s qs
select_scan-Yields scan pred n s {qs = qs} c y lt =
    Goes-Yields scan pred n s qs (next_row-Goes scan pred n n s c y lt (omega arith))
