-- ===== src/Scan/ProductScan/Rows.antt =====
-- The rows of a product scan.
use sample_db.Base.{
  ◌≡◌, refl, List, [], ◌∷◌, ◌++◌, map, Bool, true, false, Str, ok, ◌>>=◌, if◌then◌else◌,
}
use mathlib.Core.Path.{subst}
use sample_db.Base.{sym, ap, ◌∙◌}
use sample_db.Scan.Predicate.{Row}
use sample_db.Scan.Interface.{ScanOps}
use sample_db.Scan.SelectScan.Rows.{Yields}
use sample_db.Scan.ProductScan.{open_product, next_product, next_pair, product_scan}

-- The first row's fields, and else those of the second row.
abbrev pub joined : (Str → Bool) → Row → Row → Row
joined has r q field = if has field then r field else q field

-- Each row of the first list with every row of the second, in order.
abbrev pub pairs : (Str → Bool) → List Row → List Row → List Row
pairs has [] qs = []
pairs has (r ∷ rs) qs = map (joined has r) qs ++ pairs has rs qs

pairs-nil : (has : Str → Bool) (rs : List Row) → pairs has rs [] ≡ []
pairs-nil has [] = refl
pairs-nil has (r ∷ rs) = pairs-nil has rs

-- A scan that can start again: its states satisfy `Again`, and from each it goes back to before
-- these rows.
pub record Restarts {T : Type 0} (scan : ScanOps T) (qs : List Row) : Type 1 where
  pub Again : T → Type 0
  pub next_again : (t t' : T) (more : Bool) → Again t → scan.next t ≡ ok (t', more) → Again t'
  pub start_again :
      (t : T) → Again t → (t' : T) × (scan.before_first t ≡ ok t') × Again t' × Yields scan t' qs

module _ {S T : Type 0} (scan1 : ScanOps S) (scan2 : ScanOps T) (has : Str → Bool)
    (has_fields : (s : S) → scan1.has_field s ≡ has) where
  joined-get_value :
      (s : S) (t : T) (r q : Row)
      → scan1.get_value s ≡ r
      → scan2.get_value t ≡ q
      → (product_scan scan1 scan2).get_value (s, t) ≡ joined has r q
  joined-get_value s t r q v w =
      ap (λ h. joined h (scan1.get_value s) (scan2.get_value t)) (has_fields s)
      ∙ ap (λ x. joined has x (scan2.get_value t)) v
      ∙ ap (joined has r) w

  -- The second scan has no more rows: the first one goes on.
  next-restarts :
      (s : S) (t t' t'' : T)
      → scan2.next t ≡ ok (t', false)
      → scan2.before_first t' ≡ ok t''
      → next_product scan1 scan2 (s, t) ≡ (
          scan1.next s >>= λ x. elim x.1 [
            | false ↦ ok ((x.0, t''), false)
            | true ↦ (scan2.next t'' >>= λ y. ok ((x.0, y.0), y.1))
          ])
  unfolding next_product next_pair
  next-restarts s t t' t'' e f = rw (e, f) refl

  -- The first scan stands on `r`, and the second one before `ps`.
  Yields-pairs :
      (qs : List Row) (again : Restarts scan2 qs) (s : S) (t : T) (r : Row) (rs ps : List Row)
      → scan1.get_value s ≡ r
      → Yields scan1 s rs
      → again.Again t
      → Yields scan2 t ps
      → Yields (product_scan scan1 scan2) (s, t) (map (joined has r) ps ++ pairs has rs qs)
  unfolding next_product
  Yields-pairs qs again s t r rs (p ∷ ps) v y a (t', e, w, z) = (
    (s, t'),
    rw e refl,
    joined-get_value s t' r p v w,
    Yields-pairs qs again s t' r rs ps v y (again.next_again t t' true a e) z,
  )
  Yields-pairs qs again s t r [] [] v (s', f) a (t', e) =
      let (t'', g, a'', z) = again.start_again t' (again.next_again t t' false a e) in
      ((s', t''), next-restarts s t t' t'' e g ∙ rw f refl)
  Yields-pairs [] again s t r (r' ∷ rs) [] v (s', f, v', y) a (t', e) =
      let (t'', g, a'', (t3, z)) = again.start_again t' (again.next_again t t' false a e) in
      subst (Yields (product_scan scan1 scan2) (s, t)) (sym (pairs-nil has rs))
        ((s', t3), next-restarts s t t' t'' e g ∙ rw (f, z) refl)
  Yields-pairs (q ∷ qs) again s t r (r' ∷ rs) [] v (s', f, v', y) a (t', e) =
      let (t'', g, a'', (t3, z, w, more)) =
        again.start_again t' (again.next_again t t' false a e) in
      (
        (s', t3),
        next-restarts s t t' t'' e g ∙ rw (f, z) refl,
        joined-get_value s' t3 r' q v' w,
        Yields-pairs (q ∷ qs) again s' t3 r' rs qs v' y (again.next_again t'' t3 true a'' z) more,
      )

  -- A product scan returns, and gives each row of the first scan with every row of the second, in
  -- order, with the values of the first where it has the field. The first scan gives at least one
  -- row, and the second one can start again.
  pub open_product-Yields :
      (s : S) (t : T) (r : Row) (rs qs : List Row) (again : Restarts scan2 qs)
      → Yields scan1 s (r ∷ rs)
      → again.Again t
      → Yields scan2 t qs
      → (x : S × T) × (open_product scan1 scan2 s t ≡ ok x)
        × Yields (product_scan scan1 scan2) x (pairs has (r ∷ rs) qs)
  unfolding open_product
  open_product-Yields s t r rs qs again (s', e, v, y) a z =
      ((s', t), rw e refl, Yields-pairs qs again s' t r rs qs v y a z)
