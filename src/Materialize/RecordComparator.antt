-- ===== src/Materialize/RecordComparator.antt =====
-- materialize/RecordComparator.cpp: rows in the order of some of their fields.
use sample_db.Base.{
  ℕ, suc, List, [], ◌∷◌, Bool, true, false, Str, ℤ, pos, negsuc, int_lt, Result, ok, ◌>>=◌,
  if◌then◌else◌,
}
use sample_db.Scan.Constant.{constant_lt, constant_gt}
use sample_db.Scan.Predicate.{Row}

-- What the loop does with a field whose values are in order, or not, or the same.
abbrev pub compared : Bool → Result Bool → Result ℤ → Result ℤ
compared true gt rest = ok (negsuc 0)
compared false gt rest = gt >>= λ more. if more then ok (pos 1) else rest

-- `compare`: the first field that differs decides.
unfoldable pub compare : List Str → Row → Row → Result ℤ
compare [] s1 s2 = ok (pos 0)
compare (field ∷ fields) s1 s2 = do
  c1 ← s1 field
  c2 ← s2 field
  less ← constant_lt c1 c2
  compared less (constant_gt c1 c2) (compare fields s1 s2)

-- The loop of `minIndex` from index `i` on, which compares each scan with itself.
unfoldable pub min_index_from : List Str → ℕ → List Row → ℤ → Result ℤ
min_index_from fields i [] min_idx = ok min_idx
min_index_from fields i (s ∷ scans) min_idx = do
  c ← compare fields s s
  min_index_from fields (suc i) scans (if int_lt (pos 0) c then pos i else min_idx)

abbrev pub min_index : List Str → List Row → Result ℤ
min_index fields scans = min_index_from fields 0 scans (negsuc 0)
