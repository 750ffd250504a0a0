-- ===== src/Plan/Tree.antt =====
-- plan/TablePlan.cpp, SelectPlan.cpp, ProjectPlan.cpp and ProductPlan.cpp, and the plans of
-- materialize/: a plan is a tree, with a node for each class. Numbers have no bound here.
use sample_db.Base.{
  ℕ, ◌+◌, ◌*◌, ◌/◌, List, [], ◌∷◌, Option, Str, str_eq, ◌==◌, Result, ok, err, fault, ◌>>=◌,
  if◌then◌else◌, nat_beq, leb,
}
use sample_db.Record.Schema.{Schema, empty_schema, add_names, add_all, add_int_field, has_field}
use sample_db.Record.Layout.{Layout, new_layout}
use sample_db.Scan.Constant.{is_null}
use sample_db.Scan.Predicate.{
  Predicate, reduction_factor, equates_with_constant, equates_with_field,
}
use sample_db.Materialize.AggregationFn.{AggregationFn, field_name}
use sample_db.Meta.StatMgr.{StatInfo, stat_distinct_values, stats_or}

pub data Plan : Type 0 where
  table_plan : Str → Layout → StatInfo → Plan
  select_plan : Plan → Predicate → Plan
  project_plan : Plan → Schema → Plan
  product_plan : Plan → Plan → Schema → Plan
  materialize_plan : Plan → Plan
  sort_plan : Plan → List Str → Plan
  group_by_plan : Plan → List Str → List AggregationFn → Schema → Plan
  merge_join_plan : Plan → Plan → Str → Str → Schema → Plan

-- `schema`.
unfoldable pub schema_of : Plan → Schema
schema_of (table_plan name layout stats) = layout.schema
schema_of (select_plan p pred) = schema_of p
schema_of (project_plan p schema) = schema
schema_of (product_plan p q schema) = schema
schema_of (materialize_plan p) = schema_of p
schema_of (sort_plan p fields) = schema_of p
schema_of (group_by_plan p fields fns schema) = schema
schema_of (merge_join_plan p q field1 field2 schema) = schema

abbrev pub divide : ℕ → ℕ → Result ℕ
divide a b = if nat_beq b 0 then err fault else ok (a / b)

abbrev pub larger : ℕ → ℕ → ℕ
larger a b = if leb a b then b else a

abbrev pub smaller : ℕ → ℕ → ℕ
smaller a b = if leb b a then b else a

-- The product of the distinct values of the group's fields.
abbrev pub num_groups : (Str → ℕ) → List Str → ℕ
num_groups distinct [] = 1
num_groups distinct (field ∷ fields) = num_groups distinct fields * distinct field

-- `distinctValues`. A selection by an equation of two fields takes the smaller of one number and
-- itself.
unfoldable pub distinct_values : Plan → Str → ℕ
distinct_values (table_plan name layout stats) field = stat_distinct_values stats
distinct_values (select_plan p pred) field =
    let other = equates_with_field pred field in
    let equated = distinct_values p other in
    let own = distinct_values p field in
    if is_null (equates_with_constant pred field)
    then if other == [] then own else smaller equated equated
    else 1
distinct_values (project_plan p schema) field = distinct_values p field
distinct_values (product_plan p q schema) field =
    let left = distinct_values p field in
    let right = distinct_values q field in if has_field (schema_of p) field then left else right
distinct_values (materialize_plan p) field = distinct_values p field
distinct_values (sort_plan p fields) field = distinct_values p field
distinct_values (group_by_plan p fields fns schema) field =
    let own = distinct_values p field in
    let groups = num_groups (λ f. distinct_values p f) fields in
    if has_field (schema_of p) field then own else groups
distinct_values (merge_join_plan p q field1 field2 schema) field =
    let left = distinct_values p field in
    let right = distinct_values q field in if has_field (schema_of p) field then left else right

-- `recordsOutput`.
unfoldable pub records_output : Plan → Result ℕ
records_output (table_plan name layout stats) = ok stats.num_records
records_output (select_plan p pred) = do
  n ← records_output p
  factor ← reduction_factor 1 pred (distinct_values p)
  divide n factor
records_output (project_plan p schema) = records_output p
records_output (product_plan p q schema) = do n ← records_output p; m ← records_output q; ok (n * m)
records_output (materialize_plan p) = records_output p
records_output (sort_plan p fields) = records_output p
records_output (group_by_plan p fields fns schema) =
    ok (num_groups (λ f. distinct_values p f) fields)
records_output (merge_join_plan p q field1 field2 schema) = do
  n ← records_output p
  m ← records_output q
  divide (n * m) (larger (distinct_values p field1) (distinct_values q field2))

-- What `blocksAccessed` of a materialized plan gives for a number of records and the size of a
-- slot: it is computed with doubles.
module _ (blocks_for : ℕ → ℕ → ℕ) where
  unfoldable pub materialized_blocks : Plan → Result ℕ
  materialized_blocks p = do
    layout ← new_layout (schema_of p)
    n ← records_output p
    ok (blocks_for n layout.slot_size)

  -- `blocksAccessed`. A sort costs what its input costs as a materialized table.
  unfoldable pub blocks_accessed : Plan → Result ℕ
  blocks_accessed (table_plan name layout stats) = ok stats.num_blocks
  blocks_accessed (select_plan p pred) = blocks_accessed p
  blocks_accessed (project_plan p schema) = blocks_accessed p
  blocks_accessed (product_plan p q schema) = do
    b ← blocks_accessed p
    n ← records_output p
    c ← blocks_accessed q
    ok (b + n * c)
  blocks_accessed (materialize_plan p) = materialized_blocks p
  blocks_accessed (sort_plan p fields) = materialized_blocks p
  blocks_accessed (group_by_plan p fields fns schema) = blocks_accessed p
  blocks_accessed (merge_join_plan p q field1 field2 schema) = do
    b ← blocks_accessed p
    c ← blocks_accessed q
    ok (b + c)

-- The constructor of a table plan, from what the catalog gives for the table. `unset` is what a
-- default `StatInfo` holds.
abbrev pub new_table_plan : StatInfo → Str → Layout → Option StatInfo → Plan
new_table_plan unset name layout stats = table_plan name layout (stats_or unset stats)

-- The constructors that make a schema.
unfoldable pub new_project_plan : Plan → List Str → Result Plan
new_project_plan p fields = do
  schema ← add_names fields empty_schema (schema_of p)
  ok (project_plan p schema)

unfoldable pub new_product_plan : Plan → Plan → Result Plan
new_product_plan p q = do
  s ← add_all empty_schema (schema_of p)
  schema ← add_all s (schema_of q)
  ok (product_plan p q schema)

abbrev pub add_fn_fields : Schema → List AggregationFn → Schema
add_fn_fields s [] = s
add_fn_fields s (fn ∷ fns) = add_fn_fields (add_int_field s (field_name fn)) fns

-- The input is sorted by the group's fields.
unfoldable pub new_group_by_plan : Plan → List Str → List AggregationFn → Result Plan
new_group_by_plan p fields fns = do
  schema ← add_names fields empty_schema (schema_of p)
  ok (group_by_plan (sort_plan p fields) fields fns (add_fn_fields schema fns))

-- Both inputs are sorted by their field.
unfoldable pub new_merge_join_plan : Plan → Plan → Str → Str → Result Plan
new_merge_join_plan p q field1 field2 = do
  s ← add_all empty_schema (schema_of p)
  schema ← add_all s (schema_of q)
  ok (merge_join_plan (sort_plan p (field1 ∷ [])) (sort_plan q (field2 ∷ [])) field1 field2 schema)
