-- ===== src/Materialize/SortScan/Order.antt =====
-- The order of the rows of a sort scan: the merge of two runs in order is in order, and has the rows
-- of both.
use mathlib.Core.List.{Perm, perm_middle}
use mathlib.Core.List.Perm
use mathlib.Core.Bool.{true≢false}
use sample_db.Base.{
  List, [], ◌∷◌, ◌++◌, Bool, true, false, ◌≡◌, refl, sym, ◌∙◌, ◌⊎◌, inl, inr, Str, ℤ, pos, negsuc,
  int_lt, ok, ok-injective, ap, arith,
}
use sample_db.Scan.Constant.{Constant, constant_lt, constant_gt}
use sample_db.Scan.Constant.Order.{HasKind, is_int, is_string, constant_trichotomy}
use sample_db.Scan.Predicate.{Row}
use sample_db.Scan.Interface.{ScanOps}
use sample_db.Scan.SelectScan.Rows.{Yields}
use sample_db.Materialize.RecordComparator.{compare}
use sample_db.Materialize.SortScan.{SortScan, new_sort_scan}
use sample_db.Materialize.SortScan.Rows.{
  Merged, nothing, first_only, second_only, less, not_less, SortYields, new_sort_scan-Yields,
}

-- The row has a value in each of the fields, of the field's kind.
abbrev pub HasFields : (Str → Bool) → List Str → Row → Type 0
HasFields kinds [] r = Unit {0}
HasFields kinds (field ∷ fields) r =
    ((c : Constant) × (r field ≡ ok c) × HasKind (kinds field) c) × HasFields kinds fields r

abbrev pub AllHaveFields : (Str → Bool) → List Str → List Row → Type 0
AllHaveFields kinds fields [] = Unit {0}
AllHaveFields kinds fields (r ∷ rs) = HasFields kinds fields r × AllHaveFields kinds fields rs

-- The second row does not go before the first.
abbrev pub Follows : List Str → Row → Row → Type 0
Follows fields r q = (c : ℤ) × (compare fields r q ≡ ok c) × (int_lt (pos 0) c ≡ false)

abbrev pub HeadFollows : List Str → Row → List Row → Type 0
HeadFollows fields r [] = Unit {0}
HeadFollows fields r (q ∷ qs) = Follows fields r q

-- Each row follows the one before it.
abbrev pub InOrder : List Str → List Row → Type 0
InOrder fields [] = Unit {0}
InOrder fields (r ∷ rs) = HeadFollows fields r rs × InOrder fields rs

-- Two rows, compared both ways.
abbrev BothWays : List Str → Row → Row → Type 0
BothWays fields r q =
    ((compare fields r q ≡ ok (negsuc 0)) × (compare fields q r ≡ ok (pos 1)))
    ⊎ ((compare fields r q ≡ ok (pos 0)) × (compare fields q r ≡ ok (pos 0)))
    ⊎ ((compare fields r q ≡ ok (pos 1)) × (compare fields q r ≡ ok (negsuc 0)))

gt-eq-lt :
    {k : Bool} {a b : Constant} → HasKind k a → HasKind k b → constant_gt a b ≡ constant_lt b a
unfolding constant_lt constant_gt
gt-eq-lt (is_int n) (is_int m) = refl
gt-eq-lt (is_string s) (is_string t) = refl

compare-BothWays :
    (kinds : Str → Bool) (fields : List Str) (r q : Row)
    → HasFields kinds fields r
    → HasFields kinds fields q
    → BothWays fields r q
unfolding compare
compare-BothWays kinds [] r q h k = inr (inl (refl, refl))
compare-BothWays kinds (field ∷ fields) r q ((c, e, kc), h) ((d, f, kd), k) =
    let back = gt-eq-lt kd kc in
    let there = gt-eq-lt kc kd in
    elim (constant_trichotomy kc kd) [
      | inl (lt, eq, gt) ↦ inl (rw (e, f, lt) refl, rw (e, f, sym there ∙ gt, back ∙ lt) refl)
      | inr (inl (lt, eq, gt)) ↦
          rw (e, f, lt, gt, sym there ∙ gt, back ∙ lt) (compare-BothWays kinds fields r q h k)
      | inr (inr (lt, eq, gt)) ↦ inr (inr (rw (e, f, lt, gt) refl, rw (e, f, sym there ∙ gt) refl))
    ]

-- The comparison that a merge makes, and what it says of the two rows.
less_or_not :
    (kinds : Str → Bool) (fields : List Str) (r q : Row)
    → HasFields kinds fields r
    → HasFields kinds fields q
    → ((c : ℤ) × (compare fields r q ≡ ok c) × (int_lt c (pos 0) ≡ true))
      ⊎ ((c : ℤ) × (compare fields r q ≡ ok c) × (int_lt c (pos 0) ≡ false))
less_or_not kinds fields r q h k = elim (compare-BothWays kinds fields r q h k) [
  | inl (e, f) ↦ inl (negsuc 0, e, refl)
  | inr (inl (e, f)) ↦ inr (pos 0, e, refl)
  | inr (inr (e, f)) ↦ inr (pos 1, e, refl)
]

less-Follows :
    (fields : List Str) (r q : Row) (c : ℤ)
    → compare fields r q ≡ ok c
    → int_lt c (pos 0) ≡ true
    → Follows fields r q
less-Follows fields r q (pos n) e lt = absurd (ground arith)
less-Follows fields r q (negsuc n) e lt = (negsuc n, e, refl)

not_less-Follows :
    (kinds : Str → Bool) (fields : List Str) (r q : Row) (c : ℤ)
    → HasFields kinds fields r
    → HasFields kinds fields q
    → compare fields r q ≡ ok c
    → int_lt c (pos 0) ≡ false
    → Follows fields q r
not_less-Follows kinds fields r q c h k e ge = elim (compare-BothWays kinds fields r q h k) [
  | inl (f, g) ↦
      absurd (true≢false (sym (ap (λ d. int_lt d (pos 0)) (ok-injective (sym e ∙ f))) ∙ ge))
  | inr (inl (f, g)) ↦ (pos 0, g, refl)
  | inr (inr (f, g)) ↦ (negsuc 0, g, refl)
]

-- Rows that can be compared have a merge.
merge_rows :
    (kinds : Str → Bool) (fields : List Str) (rs qs : List Row)
    → AllHaveFields kinds fields rs
    → AllHaveFields kinds fields qs
    → (out : List Row) × Merged fields rs qs out
merge_rows kinds fields [] [] h k = ([], nothing)
merge_rows kinds fields [] (q ∷ qs) h (kq, k) =
    let (out, m) = merge_rows kinds fields [] qs h k in (q ∷ out, second_only m)
merge_rows kinds fields (r ∷ rs) [] (hr, h) k =
    let (out, m) = merge_rows kinds fields rs [] h k in (r ∷ out, first_only m)
merge_rows kinds fields (r ∷ rs) (q ∷ qs) (hr, h) (kq, k) =
    elim (less_or_not kinds fields r q hr kq) [
      | inl (c, e, lt) ↦
          let (out, m) = merge_rows kinds fields rs (q ∷ qs) h (kq, k) in (r ∷ out, less e lt m)
      | inr (c, e, ge) ↦
          let (out, m) = merge_rows kinds fields (r ∷ rs) qs (hr, h) k in (q ∷ out, not_less e ge m)
    ]

Merged-Perm :
    (fields : List Str) {rs qs out : List Row} → Merged fields rs qs out → Perm out (rs ++ qs)
Merged-Perm fields nothing = Perm.rfl
Merged-Perm fields (first_only {r = r} m) = Perm.cons r (Merged-Perm fields m)
Merged-Perm fields (second_only {q = q} m) = Perm.cons q (Merged-Perm fields m)
Merged-Perm fields (less {r = r} c lt m) = Perm.cons r (Merged-Perm fields m)
Merged-Perm fields (not_less {r = r} {q = q} {rs = rs} {qs = qs} c ge m) =
    Perm.trans (Perm.cons q (Merged-Perm fields m)) (Perm.symm (perm_middle (r ∷ rs) qs))

-- What follows the heads of both follows the head of their merge.
Merged-HeadFollows :
    (fields : List Str) (x : Row) {rs qs out : List Row}
    → Merged fields rs qs out
    → HeadFollows fields x rs
    → HeadFollows fields x qs
    → HeadFollows fields x out
Merged-HeadFollows fields x nothing h k = h
Merged-HeadFollows fields x (first_only m) h k = h
Merged-HeadFollows fields x (second_only m) h k = k
Merged-HeadFollows fields x (less c lt m) h k = h
Merged-HeadFollows fields x (not_less c ge m) h k = k

Merged-InOrder :
    (kinds : Str → Bool) (fields : List Str) {rs qs out : List Row}
    → Merged fields rs qs out
    → AllHaveFields kinds fields rs
    → AllHaveFields kinds fields qs
    → InOrder fields rs
    → InOrder fields qs
    → InOrder fields out
Merged-InOrder kinds fields nothing h k o p = o
Merged-InOrder kinds fields (first_only {r = r} m) (hr, h) k (f, o) p =
    (Merged-HeadFollows fields r m f tt, Merged-InOrder kinds fields m h k o p)
Merged-InOrder kinds fields (second_only {q = q} m) h (kq, k) o (g, p) =
    (Merged-HeadFollows fields q m tt g, Merged-InOrder kinds fields m h k o p)
Merged-InOrder kinds fields (less {r = r} {q = q} {c = c} e lt m) (hr, h) k (f, o) p = (
  Merged-HeadFollows fields r m f (less-Follows fields r q c e lt),
  Merged-InOrder kinds fields m h k o p,
)
Merged-InOrder kinds fields (not_less {r = r} {q = q} {c = c} e ge m) (hr, h) (kq, k) o (g, p) = (
  Merged-HeadFollows fields q m (not_less-Follows kinds fields r q c hr kq e ge) g,
  Merged-InOrder kinds fields m (hr, h) k o p,
)

-- A sort scan on two runs returns, and its rows are those of the two runs, in the order of the
-- fields: none goes before the one in front of it. Each run gives its rows, which are in that order
-- and have values of the fields' kinds.
pub new_sort_scan-InOrder :
    {S : Type 0} (scan : ScanOps S) (kinds : Str → Bool) (fields : List Str) (s t : S)
    (rs qs : List Row)
    → Yields scan s rs
    → Yields scan t qs
    → AllHaveFields kinds fields rs
    → AllHaveFields kinds fields qs
    → InOrder fields rs
    → InOrder fields qs
    → (st : SortScan S) × (out : List Row) × (new_sort_scan scan fields (s ∷ t ∷ []) ≡ ok st)
      × SortYields scan fields st out
      × Perm out (rs ++ qs)
      × InOrder fields out
new_sort_scan-InOrder scan kinds fields s t rs qs y z h k o p =
    let (out, m) = merge_rows kinds fields rs qs h k in
    let (st, e, ys) = new_sort_scan-Yields scan fields s t y z m in
    (st, out, e, ys, Merged-Perm fields m, Merged-InOrder kinds fields m h k o p)
