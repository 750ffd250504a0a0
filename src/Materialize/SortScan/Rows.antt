-- ===== src/Materialize/SortScan/Rows.antt =====
-- The rows of two sorted runs: a sort scan gives their merge.
use sample_db.Base.{
  List, [], ◌∷◌, Bool, true, false, ◌≡◌, refl, Option, none, some, Str, ℤ, pos, int_lt, ok,
}
use sample_db.Scan.Predicate.{Row}
use sample_db.Scan.Interface.{ScanOps}
use sample_db.Scan.SelectScan.Rows.{Yields}
use sample_db.Materialize.RecordComparator.{compare}
use sample_db.Materialize.SortScan.{
  SortScan, Which, first, second, advance, choose, chosen, next, current_scan, get_value,
  new_sort_scan, open_second,
}

-- The merge of two lists of rows: the first list's row goes first if it is less.
pub data Merged (fields : List Str) : List Row → List Row → List Row → Type 0 where
  nothing : Merged fields [] [] []
  first_only :
      {r : Row} {rs out : List Row} → Merged fields rs [] out → Merged fields (r ∷ rs) [] (r ∷ out)
  second_only :
      {q : Row} {qs out : List Row} → Merged fields [] qs out → Merged fields [] (q ∷ qs) (q ∷ out)
  less :
      {r q : Row} {rs qs out : List Row} {c : ℤ}
      → compare fields r q ≡ ok c
      → int_lt c (pos 0) ≡ true
      → Merged fields rs (q ∷ qs) out
      → Merged fields (r ∷ rs) (q ∷ qs) (r ∷ out)
  not_less :
      {r q : Row} {rs qs out : List Row} {c : ℤ}
      → compare fields r q ≡ ok c
      → int_lt c (pos 0) ≡ false
      → Merged fields (r ∷ rs) qs out
      → Merged fields (r ∷ rs) (q ∷ qs) (q ∷ out)

module _ {S : Type 0} (scan : ScanOps S) (fields : List Str) where
  -- From a state, `next` gives these rows in order, and then no more.
  abbrev pub SortYields : SortScan S → List Row → Type 0
  SortYields st [] = (st' : SortScan S) × (next scan fields st ≡ ok (st', false))
  SortYields st (r ∷ rs) =
      (st' : SortScan S) × (next scan fields st ≡ ok (st', true))
      × (get_value scan fields st' ≡ r)
      × SortYields st' rs

  -- A run stands on the first of these rows, or its flag says that there is none.
  abbrev pub OnRow : S → Bool → List Row → Type 0
  OnRow s more [] = more ≡ false
  OnRow s more (r ∷ rs) = (more ≡ true) × (scan.get_value s ≡ r) × Yields scan s rs

  abbrev pub OnRow2 : Option S → Bool → List Row → Type 0
  OnRow2 none more [] = more ≡ false
  OnRow2 none more (q ∷ qs) = ⊥
  OnRow2 (some s) more qs = OnRow s more qs

  -- After `advance` the two runs stand on these rows.
  abbrev pub Ready : SortScan S → List Row → List Row → Type 0
  Ready st rs qs =
      (st' : SortScan S) × (advance scan fields st st.current ≡ ok st')
      × OnRow st'.s1 st'.has_more1 rs
      × OnRow2 st'.s2 st'.has_more2 qs

  -- A run that stands on a row goes to the next one.
  next-OnRow :
      (s : S) (rs : List Row)
      → Yields scan s rs
      → (s' : S) × (more : Bool) × (scan.next s ≡ ok (s', more)) × OnRow s' more rs
  next-OnRow s [] (s', e) = (s', false, e, refl)
  next-OnRow s (r ∷ rs) (s', e, v, y) = (s', true, e, (refl, v, y))

  first-Ready :
      (st : SortScan S) (rs qs : List Row)
      → Yields scan st.s1 rs
      → OnRow2 st.s2 st.has_more2 qs
      → Ready (record st { current = some first }) rs qs
  unfolding advance
  first-Ready st rs qs y k =
      let (s, more, e, on) = next-OnRow st.s1 rs y in
      (record st { s1 = s; has_more1 = more; current = some first }, rw e refl, on, k)

  second-Ready :
      (st : SortScan S) (s : S) (rs qs : List Row)
      → st.s2 ≡ some s
      → OnRow st.s1 st.has_more1 rs
      → Yields scan s qs
      → Ready (record st { current = some second }) rs qs
  unfolding advance
  second-Ready st s rs qs there k y =
      let (s', more, e, on) = next-OnRow s qs y in
      (
        record st { s2 = some s'; has_more2 = more; current = some second },
        rw (there, e) refl,
        k,
        on,
      )

  -- One call of `next`.
  step :
      (st st' : SortScan S) (w : Option Which)
      → advance scan fields st st.current ≡ ok st'
      → choose scan fields st' st'.has_more1 st'.has_more2 ≡ ok w
      → next scan fields st ≡ ok (chosen scan fields st' w)
  unfolding next
  step st st' w e f = rw (e, f) refl

  -- The run that a row stands in.
  second-some :
      (o : Option S) (more : Bool) (q : Row) (qs : List Row)
      → OnRow2 o more (q ∷ qs)
      → (s : S) × (o ≡ some s) × OnRow s more (q ∷ qs)
  second-some none more q qs k = absurd k
  second-some (some s) more q qs k = (s, refl, k)

  no_more : (o : Option S) (more : Bool) → OnRow2 o more [] → more ≡ false
  no_more none more k = k
  no_more (some s) more k = k

  Ready-Yields :
      (st : SortScan S) {rs qs out : List Row}
      → Merged fields rs qs out
      → Ready st rs qs
      → SortYields st out
  unfolding choose get_value current_scan
  Ready-Yields st nothing (st', e, k1, k2) =
      (st', step st st' none e (rw (k1, no_more st'.s2 st'.has_more2 k2) refl))
  Ready-Yields st (first_only {r = r} {rs = rs} m) (st', e, (more, v, y), k2) = (
    record st' { current = some first },
    step st st' (some first) e (rw (more, no_more st'.s2 st'.has_more2 k2) refl),
    v,
    Ready-Yields (record st' { current = some first }) m (first-Ready st' rs [] y k2),
  )
  Ready-Yields st (second_only {q = q} {qs = qs} m) (st', e, k1, k2) =
      let (s, there, (more, v, y)) = second-some st'.s2 st'.has_more2 q qs k2 in
      (
        record st' { current = some second },
        step st st' (some second) e (rw (k1, more) refl),
        rw there v,
        Ready-Yields (record st' { current = some second }) m (second-Ready st' s [] qs there k1 y),
      )
  Ready-Yields st (less {r = r} {q = q} {rs = rs} {qs = qs} c lt m) (st', e, (more, v, y), k2) =
      let (s, there, (more2, v2, y2)) = second-some st'.s2 st'.has_more2 q qs k2 in
      (
        record st' { current = some first },
        step st st' (some first) e (rw (more, more2, there, v, v2, c, lt) refl),
        v,
        Ready-Yields (record st' { current = some first }) m (first-Ready st' rs (q ∷ qs) y k2),
      )
  Ready-Yields st (not_less {r = r} {q = q} {rs = rs} {qs = qs} c ge m) (st', e, (more, v, y), k2) =
      let (s, there, (more2, v2, y2)) = second-some st'.s2 st'.has_more2 q qs k2 in
      (
        record st' { current = some second },
        step st st' (some second) e (rw (more, more2, there, v, v2, c, ge) refl),
        rw there v2,
        Ready-Yields (record st' { current = some second }) m
            (second-Ready st' s (r ∷ rs) qs there (more, v, y) y2),
      )

  -- A sort scan on two runs returns, and gives the rows of both, merged by the fields: of two rows
  -- at hand the first run's goes first if it is less. It gives no others, and comes to an end. Each
  -- run gives its rows, and the comparisons that the merge takes return.
  pub new_sort_scan-Yields :
      (s t : S) {rs qs out : List Row}
      → Yields scan s rs
      → Yields scan t qs
      → Merged fields rs qs out
      → (st : SortScan S) × (new_sort_scan scan fields (s ∷ t ∷ []) ≡ ok st) × SortYields st out
  unfolding new_sort_scan open_second advance
  new_sort_scan-Yields s t {rs = rs} {qs = qs} y z m =
      let (s', more, e, on) = next-OnRow s rs y in
      let (t', more2, f, on2) = next-OnRow t qs z in
      let st : SortScan S = record {
        s1 = s';
        s2 = some t';
        current = none;
        has_more1 = more;
        has_more2 = more2;
        saved_position = [];
      } in
      (st, rw (e, f) refl, Ready-Yields st m (st, refl, on, on2))
