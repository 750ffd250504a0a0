-- ===== src/Materialize/GroupByScan/Rows.antt =====
-- The groups of rows that a group by scan gives, and the aggregates of a group.
use sample_db.Base.{
  ℕ, zero, suc, ◌<◌, List, [], ◌∷◌, Bool, true, false, ◌≡◌, refl, ap, ◌∙◌, some, Str, Result, ok,
  ok-injective, ◌>>=◌, >>=-eq-ok, length, arith,
}
use sample_db.Scan.Predicate.{Row}
use sample_db.Scan.Interface.{ScanOps}
use sample_db.Scan.SelectScan.Rows.{Yields}
use sample_db.Materialize.AggregationFn.{AggregationFn, process_first, process_next}
use sample_db.Materialize.GroupByScan.{
  GroupByScan, GroupValue, new_group_value, group_eq, each_fn, rest_of_group, next_group, next,
}

-- The rows at the front that agree with a group, and the rows from the first that does not.
pub data Span (fields : List Str) (group : GroupValue)
    : List Row → List Row → List Row → Type 0 where
  all : Span fields group [] [] []
  other :
      {r : Row} {rs : List Row} {gv : GroupValue}
      → new_group_value r fields ≡ ok gv
      → group_eq group gv ≡ ok false
      → Span fields group (r ∷ rs) [] (r ∷ rs)
  same :
      {r : Row} {rs members rest : List Row} {gv : GroupValue}
      → new_group_value r fields ≡ ok gv
      → group_eq group gv ≡ ok true
      → Span fields group rs members rest
      → Span fields group (r ∷ rs) (r ∷ members) rest

-- The functions after these rows.
unfoldable pub fold_fns : List Row → List AggregationFn → Result (List AggregationFn)
fold_fns [] fns = ok fns
fold_fns (r ∷ rs) fns = do fns' ← each_fn (process_next r) fns; fold_fns rs fns'

abbrev pub is_cons : List Row → Bool
is_cons [] = false
is_cons (r ∷ rs) = true

module _ {S : Type 0} (scan : ScanOps S) where
  -- The scan stands on the first of these rows.
  abbrev pub Stands : S → List Row → Type 0
  Stands s [] = Unit {0}
  Stands s (r ∷ rs) = (scan.get_value s ≡ r) × Yields scan s rs

  -- One turn of the loop, with a row of the group.
  rest_of_group-step :
      (fuel : ℕ) (fields : List Str) (group gv : GroupValue) (s s' : S) (r : Row)
      (fns fns1 : List AggregationFn)
      → scan.next s ≡ ok (s', true)
      → scan.get_value s' ≡ r
      → new_group_value r fields ≡ ok gv
      → group_eq group gv ≡ ok true
      → each_fn (process_next r) fns ≡ ok fns1
      → rest_of_group scan (suc fuel) fields group s fns
        ≡ rest_of_group scan fuel fields group s' fns1
  unfolding rest_of_group
  rest_of_group-step fuel fields group gv s s' r fns fns1 e v g d h =
      rw (rest_of_group, e, v, g, d, v, h) refl

  rest_of_group-Span :
      (fuel : ℕ) (fields : List Str) (group : GroupValue) (s : S) (fns fns' : List AggregationFn)
      {rs members rest : List Row}
      → Span fields group rs members rest
      → Yields scan s rs
      → fold_fns members fns ≡ ok fns'
      → length rs < fuel
      → (s' : S) × (rest_of_group scan fuel fields group s fns ≡ ok (s', fns', is_cons rest))
        × Stands s' rest
  unfolding rest_of_group fold_fns
  rest_of_group-Span zero fields group s fns fns' sp y f lt = absurd (omega arith)
  rest_of_group-Span (suc fuel) fields group s fns fns' all (s', e) f lt =
      (s', rw (rest_of_group, e) (ap (λ fns. ok (s', fns, false)) (ok-injective f)), tt)
  rest_of_group-Span (suc fuel) fields group s fns fns' (other g d) (s', e, v, y) f lt =
      (s', rw (rest_of_group, e, v, g, d) (ap (λ fns. ok (s', fns, true)) (ok-injective f)), (v, y))
  rest_of_group-Span (suc fuel) fields group s fns fns'
        (same {r = r} {members = members} {gv = gv} g d sp) (s', e, v, y) f lt =
      let (fns1, h, k) = >>=-eq-ok (each_fn (process_next r) fns) _ f in
      let (s'', goes, stands) =
        rest_of_group-Span fuel fields group s' fns1 fns' sp y k (omega arith) in
      (s'', rest_of_group-step fuel fields group gv s s' r fns fns1 e v g d h ∙ goes, stands)

  -- On the first row of a group, `next` gives the group: its values are those of that row, and each
  -- aggregation function has processed that row and then the rows after it that agree with it, in
  -- order, and no others. The scan then stands on the first row of the next group, if there is one.
  -- The values and the functions of the rows return, and there is fuel for each row and one more.
  pub next-Span :
      (fuel : ℕ) (g : GroupByScan S) (r : Row) (group : GroupValue) (fns fns' : List AggregationFn)
      {rs members rest : List Row}
      → g.more_groups ≡ true
      → Stands g.src (r ∷ rs)
      → new_group_value r g.group_fields ≡ ok group
      → each_fn (process_first r) g.agg_fns ≡ ok fns
      → Span g.group_fields group rs members rest
      → fold_fns members fns ≡ ok fns'
      → length rs < fuel
      → (s : S) × (next scan fuel g
          ≡ ok (
            record {
              src = s;
              group_fields = g.group_fields;
              agg_fns = fns';
              current_group = some group;
              more_groups = is_cons rest;
            },
            true,
          ))
        × Stands s rest
  unfolding next next_group
  next-Span fuel g r group fns fns' more (v, y) made firsts sp f lt =
      let (s, goes, stands) =
        rest_of_group-Span fuel g.group_fields group g.src fns fns' sp y f lt in
      (s, rw (more, v, firsts, made, goes) refl, stands)
