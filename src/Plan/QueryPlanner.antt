-- ===== src/Plan/QueryPlanner.antt =====
-- plan/BasicQueryPlanner.cpp: the plan of a query. What the catalog says and the parsing of a view's
-- text are parameters. The aggregation functions are a field of the planner, which a plan for a view
-- or a query inside clears and fills: they come back beside the plan. The recursion has fuel.
pub mod Views
use sample_db.Base.{
  ℕ, zero, suc, List, [], ◌∷◌, ◌++◌, Bool, true, false, Str, str_eq, str_lt, ◌==◌, Result, ok, err,
  fault, starved, ◌>>=◌, if◌then◌else◌, nat_beq,
}
use sample_db.Record.Schema.{Schema, field_type, integer}
use sample_db.Parse.Data.{QueryData, query_data, Queries, no_queries, and_query}
use sample_db.Scan.Predicate.{Predicate}
use sample_db.Materialize.AggregationFn.{
  AggregationFn, new_max_fn, new_min_fn, new_sum_fn, new_count_fn,
}
use sample_db.Plan.Tree.{
  Plan, select_plan, materialize_plan, sort_plan, new_project_plan, new_product_plan,
  new_group_by_plan,
}

-- What the planner asks of the catalog: the text of a view, empty if there is none; the schema of a
-- table; and the plan of a table.
pub record Catalog : Type 0 where
  pub get_view_def : Str → Result Str
  pub get_schema : Str → Result Schema
  pub get_table_plan : Str → Result Plan
  pub parse_view : Str → Result QueryData

abbrev pub is_empty {ℓ} : {A : Type ℓ} → List A → Bool
is_empty [] = true
is_empty (a ∷ bs) = false

-- The order in which the names of a `std::set` are gone through.
unfoldable pub insert_name : Str → List Str → List Str
insert_name name [] = name ∷ []
insert_name name (n ∷ names) =
    let later = insert_name name names in if str_lt n name then n ∷ later else name ∷ n ∷ names

unfoldable pub in_order : List Str → List Str
unfolding insert_name
in_order [] = []
in_order (name ∷ names) = insert_name name (in_order names)

-- The functions of the fields of a table: a sum only of integers.
unfoldable pub field_fns : Schema → List Str → Result (List AggregationFn)
field_fns schema [] = ok []
field_fns schema (field ∷ fields) = do
  type ← field_type schema field
  more ← field_fns schema fields
  let sums : List AggregationFn = if nat_beq type integer then new_sum_fn field ∷ [] else []
  ok (new_max_fn field ∷ new_min_fn field ∷ sums ++ more)

-- The product of the plans, from the left; no plan at all is a fault.
unfoldable pub multiply : Plan → List Plan → Result Plan
multiply p [] = ok p
multiply p (q ∷ qs) = do r ← new_product_plan p q; multiply r qs

unfoldable pub product_of : List Plan → Result Plan
product_of [] = err fault
product_of (p ∷ ps) = multiply p ps

-- The grouping, if the query has one: the count comes last.
unfoldable pub group_step :
    Plan → List Str → List AggregationFn → Result (Plan × List AggregationFn)
group_step p [] fns = ok (p, fns)
group_step p (field ∷ fields) fns = do
  let fns' : List AggregationFn = fns ++ new_count_fn ∷ []
  q ← new_group_by_plan p (field ∷ fields) fns'
  ok (q, fns')

-- Steps 2 and 3: product, selection, grouping, projection and sorting.
unfoldable pub assemble :
    List Plan
    → List Str
    → Predicate
    → List Str
    → List Str
    → List AggregationFn
    → Result (Plan × List AggregationFn)
assemble plans fields pred groups sorts fns = do
  product ← product_of plans
  (grouped, fns') ← group_step (select_plan product pred) groups fns
  projected ← new_project_plan grouped fields
  ok (if is_empty sorts then projected else sort_plan projected sorts, fns')

module _ (catalog : Catalog) where
  -- A table that is no view: its plan, and with grouping the functions of its fields.
  unfoldable pub plan_table :
      Str → Schema → List Str → List AggregationFn → Result (Plan × List AggregationFn)
  plan_table table schema groups fns = do
    p ← catalog.get_table_plan table
    more ← if is_empty groups then ok [] else field_fns schema schema.fields
    ok (p, fns ++ more)

  -- The loops of step 1, on a planner for the queries inside.
  unfoldable pub plan_tables :
      (QueryData → Result (Plan × List AggregationFn))
      → List Str
      → List Str
      → List AggregationFn
      → Result (List Plan × List AggregationFn)
  plan_tables inner groups [] fns = ok ([], fns)
  plan_tables inner groups (table ∷ tables) fns = do
    vdef ← catalog.get_view_def table
    schema ← catalog.get_schema table
    (p, fns') ←
        if is_empty vdef
        then plan_table table schema groups fns
        else (catalog.parse_view vdef >>= λ q. inner q)
    (ps, fns'') ← plan_tables inner groups tables fns'
    ok (p ∷ ps, fns'')

  unfoldable pub plan_queries :
      (QueryData → Result (Plan × List AggregationFn))
      → Queries
      → List AggregationFn
      → Result (List Plan × List AggregationFn)
  plan_queries inner no_queries fns = ok ([], fns)
  plan_queries inner (and_query q qs) fns = do
    (p, fns') ← inner q
    (ps, fns'') ← plan_queries inner qs fns'
    ok (materialize_plan p ∷ ps, fns'')

  -- `createPlan`: it begins with no functions.
  unfoldable pub create_plan : ℕ → QueryData → Result (Plan × List AggregationFn)
  create_plan zero q = err starved
  create_plan (suc fuel) (query_data fields tables pred groups sorts queries) = do
    (ps, fns) ← plan_tables (create_plan fuel) groups (in_order tables) []
    (qs, fns') ← plan_queries (create_plan fuel) queries fns
    assemble (ps ++ qs) fields pred groups sorts fns'
