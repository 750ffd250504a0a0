-- ===== src/Scan/ProductScan/Empty.antt =====
-- A product with a first scan that has no row.
use sample_db.Base.{◌≡◌, refl, true, false, ok, ◌>>=◌}
use sample_db.Scan.Interface.{ScanOps}
use sample_db.Scan.ProductScan.{open_product, next_product}

-- Where the first scan has no row and the second one has some, the product gives a row all the
-- same: neither the constructor nor `next` looks at what the first scan's `next` gave.
pub next-open_product_empty :
    {S T : Type 0} (scan1 : ScanOps S) (scan2 : ScanOps T) (s s' : S) (t t' : T)
    → scan1.next s ≡ ok (s', false)
    → scan2.next t ≡ ok (t', true)
    → (do x ← open_product scan1 scan2 s t; next_product scan1 scan2 x) ≡ ok ((s', t'), true)
unfolding open_product next_product
next-open_product_empty scan1 scan2 s s' t t' none some = rw (none, some) refl
