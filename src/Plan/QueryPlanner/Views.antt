-- ===== src/Plan/QueryPlanner/Views.antt =====
-- Planning a query comes to an end: views and the queries inside are planned as far as they nest.
use sample_db.Base.{
  ℕ, zero, suc, ◌≡◌, refl, ◌∙◌, List, [], ◌∷◌, ◌++◌, append_assoc, append-nil, false, Str, Result,
  ok, ◌>>=◌, Runs, bind-Runs, bind-Runs_eq, RunsTo, bind-RunsTo, RunsTo-bind, RunsTo-Runs,
  RunsTo-map, if◌then◌else◌, ap, sym,
}
use sample_db.Record.Schema.{Schema, empty_schema, add, add_names, add_all, field_type, add_field}
use sample_db.Record.Schema.Adds.{add_names-Runs, field_type-Runs, field_length-Runs}
use sample_db.Parse.Data.{QueryData, query_data, Queries, no_queries, and_query}
use sample_db.Scan.Predicate.{Predicate}
use sample_db.Materialize.AggregationFn.{AggregationFn, new_count_fn}
use sample_db.Plan.Tree.{
  Plan, schema_of, select_plan, sort_plan, new_project_plan, new_product_plan, new_group_by_plan,
}
use sample_db.Plan.QueryPlanner.{
  Catalog, is_empty, in_order, field_fns, multiply, product_of, group_step, assemble, plan_table,
  plan_tables, plan_queries, create_plan,
}

-- The calls on the catalog do not run out of fuel.
pub record CatalogRuns (c : Catalog) : Type 0 where
  pub view_def_runs : (table : Str) → Runs (c.get_view_def table)
  pub schema_runs : (table : Str) → Runs (c.get_schema table)
  pub table_plan_runs : (table : Str) → Runs (c.get_table_plan table)
  pub parse_runs : (text : Str) → Runs (c.parse_view text)

-- The query of each view among the tables satisfies `P`, and so do the queries of a list.
abbrev pub ViewsSatisfy : Catalog → (QueryData → Type 0) → List Str → Type 0
ViewsSatisfy c P [] = Unit {0}
ViewsSatisfy c P (table ∷ tables) =
    ((text : Str) (q : QueryData)
      → c.get_view_def table ≡ ok text
      → is_empty text ≡ false
      → c.parse_view text ≡ ok q
      → P q)
    × ViewsSatisfy c P tables

abbrev pub AllSatisfy : (QueryData → Type 0) → Queries → Type 0
AllSatisfy P no_queries = Unit {0}
AllSatisfy P (and_query q qs) = P q × AllSatisfy P qs

-- Queries in views and in queries are nested less deep than `n`.
abbrev pub NestsBelow : Catalog → ℕ → QueryData → Type 0
NestsBelow c zero q = ⊥
NestsBelow c (suc n) (query_data fields tables pred groups sorts queries) =
    ViewsSatisfy c (NestsBelow c n) (in_order tables) × AllSatisfy (NestsBelow c n) queries

-- `getFields`.
abbrev pub fields_of : QueryData → List Str
fields_of (query_data fields _ _ _ _ _) = fields

-- The fields of a schema that is added to.
abbrev Lists : List Str → Schema → Type 0
Lists names s = s.fields ≡ names

add-Lists :
    (s : Schema) (name : Str) (other : Schema)
    → RunsTo (Lists (s.fields ++ name ∷ [])) (add s name other)
unfolding add add_field
add-Lists s name other =
    bind-RunsTo _ _ _ (field_type-Runs other name)
      λ type. bind-RunsTo _ _ _ (field_length-Runs other name) λ length. refl

add_names-Lists :
    (names : List Str) (s other : Schema)
    → RunsTo (Lists (s.fields ++ names)) (add_names names s other)
unfolding add_names
add_names-Lists [] s other = sym (append-nil s.fields)
add_names-Lists (name ∷ names) s other =
    RunsTo-bind (Lists (s.fields ++ name ∷ [])) (Lists (s.fields ++ name ∷ names))
      (add s name other) _ (add-Lists s name other)
      λ s1 e.
        RunsTo-map (Lists (s1.fields ++ names)) (Lists (s.fields ++ name ∷ names)) _
          (add_names-Lists names s1 other)
          λ s2 f. f ∙ ap (λ l. l ++ names) e ∙ append_assoc s.fields (name ∷ []) names

-- The fields of a plan.
abbrev HasColumns : List Str → Plan → Type 0
HasColumns fields p = (schema_of p).fields ≡ fields

new_project_plan-HasColumns :
    (p : Plan) (fields : List Str) → RunsTo (HasColumns fields) (new_project_plan p fields)
unfolding new_project_plan schema_of
new_project_plan-HasColumns p fields =
    RunsTo-bind (Lists fields) (HasColumns fields) (add_names fields empty_schema (schema_of p)) _
      (add_names-Lists fields empty_schema (schema_of p)) λ s e. e

new_product_plan-Runs : (p q : Plan) → Runs (new_product_plan p q)
unfolding new_product_plan
new_product_plan-Runs p q =
    bind-Runs (add_all empty_schema (schema_of p)) _ (add_names-Runs _ _ _)
      λ s. bind-Runs (add_all s (schema_of q)) _ (add_names-Runs _ _ _) λ s'. tt

multiply-Runs : (p : Plan) (ps : List Plan) → Runs (multiply p ps)
unfolding multiply
multiply-Runs p [] = tt
multiply-Runs p (q ∷ qs) =
    bind-Runs (new_product_plan p q) _ (new_product_plan-Runs p q) λ r. multiply-Runs r qs

product_of-Runs : (ps : List Plan) → Runs (product_of ps)
unfolding product_of
product_of-Runs [] = tt
product_of-Runs (p ∷ ps) = multiply-Runs p ps

group_step-Runs :
    (p : Plan) (groups : List Str) (fns : List AggregationFn) → Runs (group_step p groups fns)
unfolding group_step new_group_by_plan
group_step-Runs p [] fns = tt
group_step-Runs p (field ∷ fields) fns =
    bind-Runs (new_group_by_plan p (field ∷ fields) (fns ++ new_count_fn ∷ [])) _
      (bind-Runs (add_names (field ∷ fields) empty_schema (schema_of p)) _ (add_names-Runs _ _ _)
        λ s. tt)
      λ q. tt

field_fns-Runs : (schema : Schema) (fields : List Str) → Runs (field_fns schema fields)
unfolding field_fns
field_fns-Runs schema [] = tt
field_fns-Runs schema (field ∷ fields) =
    bind-Runs (field_type schema field) _ (field_type-Runs schema field)
      λ type. bind-Runs (field_fns schema fields) _ (field_fns-Runs schema fields) λ more. tt

sorted-HasColumns :
    (fields sorts : List Str) (q : Plan)
    → HasColumns fields q
    → HasColumns fields (if is_empty sorts then q else sort_plan q sorts)
unfolding schema_of
sorted-HasColumns fields [] q e = e
sorted-HasColumns fields (s ∷ ss) q e = e

-- The plan that a query gets.
abbrev pub Shows : List Str → Plan × List AggregationFn → Type 0
Shows fields x = (schema_of x.0).fields ≡ fields

assemble-Shows :
    (ps : List Plan) (fields : List Str) (pred : Predicate) (groups sorts : List Str)
    (fns : List AggregationFn)
    → RunsTo (Shows fields) (assemble ps fields pred groups sorts fns)
unfolding assemble schema_of
assemble-Shows ps fields pred groups sorts fns =
    bind-RunsTo (Shows fields) (product_of ps) _ (product_of-Runs ps) λ product.
      bind-RunsTo (Shows fields) (group_step (select_plan product pred) groups fns) _
        (group_step-Runs (select_plan product pred) groups fns)
        λ x.
          RunsTo-bind (HasColumns fields) (Shows fields) (new_project_plan x.0 fields) _
            (new_project_plan-HasColumns x.0 fields) λ q e. sorted-HasColumns fields sorts q e

module _ (c : Catalog) (runs : CatalogRuns c) where
  plan_table-Runs :
      (table : Str) (schema : Schema) (groups : List Str) (fns : List AggregationFn)
      → Runs (plan_table c table schema groups fns)
  unfolding plan_table
  plan_table-Runs table schema [] fns =
      bind-Runs (c.get_table_plan table) _ (runs.table_plan_runs table) λ p. tt
  plan_table-Runs table schema (g ∷ gs) fns =
      bind-Runs (c.get_table_plan table) _ (runs.table_plan_runs table) λ p.
        bind-Runs (field_fns schema schema.fields) _ (field_fns-Runs schema schema.fields)
          λ more. tt

  -- The loops, on a planner that runs on the queries that satisfy `P`.
  module _ (inner : QueryData → Result (Plan × List AggregationFn)) (P : QueryData → Type 0)
      (inner_runs : (q : QueryData) → P q → Runs (inner q)) where
    -- A view's query, or the table.
    plan_one-Runs :
        (table text : Str) (schema : Schema) (groups : List Str) (fns : List AggregationFn)
        → ((q : QueryData) → is_empty text ≡ false → c.parse_view text ≡ ok q → P q)
        → Runs (
            if is_empty text
            then plan_table c table schema groups fns
            else (c.parse_view text >>= λ q. inner q))
    plan_one-Runs table [] schema groups fns h = plan_table-Runs table schema groups fns
    plan_one-Runs table (x ∷ text) schema groups fns h =
        bind-Runs_eq (c.parse_view (x ∷ text)) inner (runs.parse_runs (x ∷ text))
          λ q e. inner_runs q (h q refl e)

    plan_tables-Runs :
        (groups tables : List Str) (fns : List AggregationFn)
        → ViewsSatisfy c P tables
        → Runs (plan_tables c inner groups tables fns)
    unfolding plan_tables
    plan_tables-Runs groups [] fns h = tt
    plan_tables-Runs groups (table ∷ tables) fns (h, hs) =
        bind-Runs_eq (c.get_view_def table) _ (runs.view_def_runs table) λ text e.
          bind-Runs (c.get_schema table) _ (runs.schema_runs table) λ schema.
            bind-Runs _ _
              (plan_one-Runs table text schema groups fns λ q some_text f. h text q e some_text f)
              λ x.
                bind-Runs (plan_tables c inner groups tables x.1) _
                  (plan_tables-Runs groups tables x.1 hs) λ y. tt

    plan_queries-Runs :
        (qs : Queries) (fns : List AggregationFn)
        → AllSatisfy P qs
        → Runs (plan_queries c inner qs fns)
    unfolding plan_queries
    plan_queries-Runs no_queries fns h = tt
    plan_queries-Runs (and_query q qs) fns (h, hs) =
        bind-Runs (inner q) _ (inner_runs q h)
          λ x. bind-Runs (plan_queries c inner qs x.1) _ (plan_queries-Runs qs x.1 hs) λ y. tt

  -- Planning a query does not run out of fuel, and a plan that it makes shows the fields of the
  -- query, in their order. The calls on the catalog do not run out of fuel, and the queries of views
  -- and those inside are nested less deep than the fuel, so that no view is in its own query.
  pub create_plan-Shows :
      (fuel : ℕ) (q : QueryData)
      → NestsBelow c fuel q
      → RunsTo (Shows (fields_of q)) (create_plan c fuel q)
  unfolding create_plan
  create_plan-Shows zero q h = absurd h
  create_plan-Shows (suc fuel) (query_data fields tables pred groups sorts queries)
        (views, inside) =
      let inner_runs : (q : QueryData) → NestsBelow c fuel q → Runs (create_plan c fuel q) =
        λ q h. RunsTo-Runs (Shows (fields_of q)) _ (create_plan-Shows fuel q h) in
      bind-RunsTo (Shows fields) (plan_tables c (create_plan c fuel) groups (in_order tables) []) _
        (plan_tables-Runs (create_plan c fuel) (NestsBelow c fuel) inner_runs groups
          (in_order tables) [] views)
        λ x.
          bind-RunsTo (Shows fields) (plan_queries c (create_plan c fuel) queries x.1) _
            (plan_queries-Runs (create_plan c fuel) (NestsBelow c fuel) inner_runs queries x.1
              inside)
            λ y. assemble-Shows (x.0 ++ y.0) fields pred groups sorts y.1
