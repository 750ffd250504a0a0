-- ===== src/Scan/ProjectScan/Rows.antt =====
-- The rows of a project scan.
use sample_db.Base.{
  ◌≡◌, refl, ap, List, [], ◌∷◌, Str, str_eq, ◌==◌, eq_iff, true, Bool-cases, err, thrown,
  if◌then◌else◌, ◌⊎◌, inl, inr, ◌↔◌, map,
}
use sample_db.Scan.Predicate.{Row}
use sample_db.Scan.Interface.{ScanOps}
use sample_db.Scan.ProjectScan.{is_listed, project_scan}
use sample_db.Scan.SelectScan.Rows.{Yields}

-- The name is one of the fields.
abbrev pub IsAmong : Str → List Str → Type 0
IsAmong name [] = ⊥
IsAmong name (field ∷ fields) = (field ≡ name) ⊎ IsAmong name fields

-- The first row has the listed fields of the second one, and every other field of it throws.
abbrev pub Shows : List Str → Row → Row → Type 0
Shows fields q r =
    ((name : Str) → IsAmong name fields → q name ≡ r name)
    × ((name : Str) → ¬ IsAmong name fields → q name ≡ err thrown)

abbrev pub AllShow : List Str → List Row → List Row → Type 0
AllShow fields [] [] = Unit {0}
AllShow fields [] (r ∷ rs) = ⊥
AllShow fields (q ∷ qs) [] = ⊥
AllShow fields (q ∷ qs) (r ∷ rs) = Shows fields q r × AllShow fields qs rs

is_listed-true :
    (name : Str) (fields : List Str) → IsAmong name fields → is_listed name fields ≡ true
unfolding is_listed
is_listed-true name [] among = absurd among
is_listed-true name (f ∷ fs) (inl e) = rw ((eq_iff f name).1 e) refl
is_listed-true name (f ∷ fs) (inr among) = elim (Bool-cases (f == name)) [
  | inl e ↦ rw e refl
  | inr e ↦ rw (e, is_listed-true name fs among) refl
]

is_listed-IsAmong :
    (name : Str) (fields : List Str) → is_listed name fields ≡ true → IsAmong name fields
unfolding is_listed
is_listed-IsAmong name [] h = cc
is_listed-IsAmong name (f ∷ fs) h = elim (Bool-cases (f == name)) [
  | inl e ↦ inl ((eq_iff f name).0 e)
  | inr e ↦ inr (is_listed-IsAmong name fs (rw e at (h)))
]

-- A row behind the scan's test.
abbrev restrict : List Str → Row → Row
restrict fields row name = if is_listed name fields then row name else err thrown

restrict-Shows : (fields : List Str) (r : Row) → Shows fields (restrict fields r) r
restrict-Shows fields r = (
  λ name among. rw (is_listed-true name fields among) refl,
  λ name not_among. elim (Bool-cases (is_listed name fields)) [
    | inl e ↦ absurd (not_among (is_listed-IsAmong name fields e))
    | inr e ↦ rw e refl
  ],
)

restrict-Yields :
    {S : Type 0} (scan : ScanOps S) (fields : List Str) (s : S) (rs : List Row)
    → Yields scan s rs
    → Yields (project_scan scan fields) s (map (restrict fields) rs)
restrict-Yields scan fields s [] y = y
restrict-Yields scan fields s (r ∷ rs) (s', e, v, y) =
    (s', e, ap (restrict fields) v, restrict-Yields scan fields s' rs y)

map-restrict-AllShow :
    (fields : List Str) (rs : List Row) → AllShow fields (map (restrict fields) rs) rs
map-restrict-AllShow fields [] = tt
map-restrict-AllShow fields (r ∷ rs) = (restrict-Shows fields r, map-restrict-AllShow fields rs)

-- A project scan gives as many rows as its scan, in the same order, with the listed fields as they
-- are and every other field throwing; and it has a field if and only if that is listed.
pub project_scan-Yields :
    {S : Type 0} (scan : ScanOps S) (fields : List Str) (s : S) (rs : List Row)
    → Yields scan s rs
    → ((qs : List Row) × Yields (project_scan scan fields) s qs × AllShow fields qs rs)
      × ((name : Str) → ((project_scan scan fields).has_field s name ≡ true) ↔ IsAmong name fields)
project_scan-Yields scan fields s rs y = (
  (map (restrict fields) rs, restrict-Yields scan fields s rs y, map-restrict-AllShow fields rs),
  λ name. (is_listed-IsAmong name fields, is_listed-true name fields),
)
