-- ===== src/Materialize/GroupByScan/Aggregates.antt =====
-- The values of the aggregation functions over a group.
use sample_db.Base.{
  ℕ, List, [], ◌∷◌, Bool, true, false, ◌≡◌, Str, ℤ, pos, ◌+ℤ◌, int_lt, fits_int, ok, ◌>>=◌,
  if◌then◌else◌, ◌⊎◌,
}
use sample_db.Scan.Constant.{int_constant}
use sample_db.Scan.Predicate.{Row}
use sample_db.Materialize.AggregationFn.{AggregationFn, count_fn, max_fn, min_fn, sum_fn}

-- The rows have these integers in a field.
abbrev pub HasInts : Str → List Row → List ℤ → Type 0
HasInts field [] [] = Unit {0}
HasInts field [] (n ∷ ns) = ⊥
HasInts field (r ∷ rs) [] = ⊥
HasInts field (r ∷ rs) (n ∷ ns) = (r field ≡ ok (int_constant n)) × HasInts field rs ns

-- The last of the integers that came before none of those after it.
abbrev pub pick : (ℤ → ℤ → Bool) → ℤ → List ℤ → ℤ
pick lt m [] = m
pick lt m (n ∷ ns) = pick lt (if lt m n then n else m) ns

abbrev pub greatest : ℤ → List ℤ → ℤ
greatest m ns = pick int_lt m ns

abbrev pub least : ℤ → List ℤ → ℤ
least m ns = pick (λ a b. int_lt b a) m ns

abbrev pub total : ℤ → List ℤ → ℤ
total m [] = m
total m (n ∷ ns) = total (m +ℤ n) ns

-- The sums on the way fit an `int`.
abbrev pub SumsFit : ℤ → List ℤ → Type 0
SumsFit m [] = Unit {0}
SumsFit m (n ∷ ns) = (fits_int (m +ℤ n) ≡ true) × SumsFit (m +ℤ n) ns

-- The four functions on one field, with their values.
abbrev pub all_fns : Str → ℕ → ℤ → ℤ → ℤ → List AggregationFn
all_fns field k a b c =
    count_fn (pos k)
    ∷ max_fn field (int_constant a)
    ∷ min_fn field (int_constant b)
    ∷ sum_fn field (int_constant c)
    ∷ []

-- No integer of the list is beyond this one, and it is one of them.
abbrev pub NoneBeyond : (ℤ → ℤ → Bool) → ℤ → List ℤ → Type 0
NoneBeyond lt x [] = Unit {0}
NoneBeyond lt x (n ∷ ns) = (lt x n ≡ false) × NoneBeyond lt x ns

abbrev pub OneOf : ℤ → List ℤ → Type 0
OneOf x [] = ⊥
OneOf x (n ∷ ns) = (x ≡ n) ⊎ OneOf x ns

abbrev pub IsExtreme : (ℤ → ℤ → Bool) → ℤ → List ℤ → Type 0
IsExtreme lt x ns = NoneBeyond lt x ns × OneOf x ns
