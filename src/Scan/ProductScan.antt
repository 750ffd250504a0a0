-- ===== src/Scan/ProductScan.antt =====
-- scan/ProductScan.cpp: every row of one scan with every row of another.
pub mod Empty
pub mod Rows
use sample_db.Base.{Bool, true, false, ◌||◌, Result, ok, ◌>>=◌, if◌then◌else◌}
use sample_db.Scan.Interface.{ScanOps}

module _ {S T : Type 0} (scan1 : ScanOps S) (scan2 : ScanOps T) where
  -- The constructor: the first scan goes to its first row, if it has one.
  unfoldable pub open_product : S → T → Result (S × T)
  open_product s t = do (s', _) ← scan1.next s; ok (s', t)

  unfoldable pub restart : S × T → Result (S × T)
  restart x = do
    s ← scan1.before_first x.0
    (s', _) ← scan1.next s
    t ← scan2.before_first x.1
    ok (s', t)

  -- The second scan from its start, with the next row of the first.
  unfoldable pub next_pair : S × T → Result ((S × T) × Bool)
  next_pair x = do
    t ← scan2.before_first x.1
    (s, more1) ← scan1.next x.0
    elim more1 [
      | false ↦ ok ((s, t), false)
      | true ↦ do (t', more2) ← scan2.next t; ok ((s, t'), more2)
    ]

  unfoldable pub next_product : S × T → Result ((S × T) × Bool)
  next_product x = do
    (t, more) ← scan2.next x.1
    elim more [ true ↦ ok ((x.0, t), true) | false ↦ next_pair (x.0, t) ]

  abbrev pub product_scan : ScanOps (S × T)
  product_scan = record {
    before_first = restart;
    next = next_product;
    get_int = λ x f. if scan1.has_field x.0 f then scan1.get_int x.0 f else scan2.get_int x.1 f;
    get_bool = λ x f. if scan1.has_field x.0 f then scan1.get_bool x.0 f else scan2.get_bool x.1 f;
    get_string =
        λ x f. if scan1.has_field x.0 f then scan1.get_string x.0 f else scan2.get_string x.1 f;
    get_value =
        λ x f. if scan1.has_field x.0 f then scan1.get_value x.0 f else scan2.get_value x.1 f;
    has_field = λ x f. scan1.has_field x.0 f || scan2.has_field x.1 f;
    close = λ x. (do s ← scan1.close x.0; t ← scan2.close x.1; ok (s, t));
  }
