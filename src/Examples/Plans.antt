-- ===== src/Examples/Plans.antt =====
-- Updates of a table that is listed, sorts of it and plans of queries.
use mathlib.Core.Path.{subst}
use mathlib.Core.Bool.{true≢false}
use sample_db.Base.{
  sym, ◌∙◌, ok-injective, if◌then◌else◌, ◌==◌, str_eq, RunsTo, ◌≡◌, refl, ap, List, [], ◌∷◌, ◌++◌,
  length, codes, true, false, Bool, Option, none, some, pos, Result, ok, err, fault, thrown, arith,
  str_beq, Succeeds,
}
use sample_db.Record.Schema.{empty_schema, add_int_field}
use sample_db.Record.Layout.{Layout}
use sample_db.Parse.Data.{QueryData, query_data, no_queries}
use sample_db.Plan.Tree.{table_plan}
use sample_db.Plan.QueryPlanner.{Catalog, is_empty, in_order, insert_name, create_plan}
use sample_db.Plan.QueryPlanner.Views.{CatalogRuns, NestsBelow, Shows, create_plan-Shows}
use sample_db.Scan.Constant.{Constant, int_constant, constant_eq, compare_by}
use sample_db.Scan.Predicate.{Row, is_satisfied, term_is_satisfied, evaluate}
use sample_db.Scan.Interface.{ScanOps, UpdateOps, Rid}
use sample_db.Plan.UpdatePlanner.{
  execute_delete, execute_modify, execute_insert, execute_delete_indexed, execute_modify_indexed,
  execute_insert_indexed,
}
use sample_db.Plan.UpdatePlanner.Indexes.{RowLaws, execute_indexed-nil}
use sample_db.Scan.Predicate.{Expression, constant_expression}
use sample_db.Plan.UpdatePlanner.Deletes.{
  TableLaws, Split, done, keep, drop, execute_delete-Deleted,
}
use sample_db.Examples.Scans.{aged, no_row, people, is_30}

-- The rows behind, the current one and those to come.
abbrev Table : Type 0
Table = List Row × Option Row × List Row

abbrev passed : Table → Table
passed (b, none, a) = (b, none, a)
passed (b, some r, a) = (b ++ r ∷ [], none, a)

abbrev go : Table → Result (Table × Bool)
go (b, c, []) = ok ((b, c, []), false)
go (b, c, r ∷ a) = ok ((b, some r, a), true)

abbrev current : Table → Row
current (b, none, a) = no_row
current (b, some r, a) = r

abbrev removed : Table → Result Table
removed (b, none, a) = err fault
removed (b, some r, a) = ok (b, none, a)

abbrev table_scan : ScanOps Table
table_scan = record {
  before_first = λ s. ok s;
  next = λ s. go (passed s);
  get_int = λ s name. err thrown;
  get_bool = λ s name. err thrown;
  get_string = λ s name. err thrown;
  get_value = λ s name. current s name;
  has_field = λ s name. true;
  close = λ s. ok s;
}

abbrev table_update : UpdateOps Table
table_update = record {
  set_int = λ s name value. err thrown;
  set_string = λ s name value. err thrown;
  set_value = λ s name value. err thrown;
  insert = λ s. err thrown;
  remove = removed;
  move_to_rid = λ s rid. err thrown;
  get_rid = λ s. err thrown;
}

abbrev table_laws : TableLaws table_scan table_update
table_laws = record {
  Before = λ s b a. passed s ≡ (b, none, a);
  On = λ s b r a. s ≡ (b, some r, a);
  Past = λ s b. passed s ≡ (b, none, []);
  next_none = λ s b e. rw e (refl, refl);
  next_some = λ s b r a e. rw e (refl, refl);
  value_on = λ s b r a e. rw e refl;
  pass_on = λ s b r a e. rw e refl;
  remove_on = λ s b r a e. rw e refl;
  close_past = λ s b e. e;
}

people-Split : Split is_30 people (aged (pos 20) ∷ []) 1
unfolding is_satisfied term_is_satisfied evaluate constant_eq compare_by
people-Split = keep refl (drop refl done)

execute_delete-Deleted_example :
    Succeeds
      (λ x. (passed x.0 ≡ (aged (pos 20) ∷ [], none, [])) × (x.1 ≡ 1))
      (execute_delete table_scan table_update 3 is_30 ([], none, people))
execute_delete-Deleted_example =
    execute_delete-Deleted table_scan table_update table_laws is_30 3 ([], none, people) people
      (aged (pos 20) ∷ []) 1 people-Split refl (omega arith)

abbrev forty : Expression
forty = constant_expression (int_constant (pos 40))

-- The same table, with the place of its current row: without one there is a fault. A row that is set
-- has the value in every field, and an empty row is inserted in front of those to come.
abbrev place_of : Table → Result Rid
place_of (b, none, a) = err fault
place_of (b, some r, a) = ok (record { block_number = pos 0; slot = pos (length b) })

abbrev set_current : Table → Constant → Result Table
set_current (b, none, a) c = err fault
set_current (b, some r, a) c = ok (b, some (λ name. ok c), a)

abbrev placed : UpdateOps Table
placed = record table_update {
  set_value = λ s name value. set_current s value;
  insert = λ s. ok ((passed s).0, some (aged (pos 0)), (passed s).2);
  get_rid = place_of;
}

-- A row has a value in each field.
abbrev HasAge : Row → Type 0
HasAge r = (c : Constant) × (r (codes "age") ≡ ok c)

abbrev AllHaveAge : List Row → Type 0
AllHaveAge [] = Unit {0}
AllHaveAge (r ∷ rs) = HasAge r × AllHaveAge rs

-- The table stands on a row that has a value, and so have those to come.
abbrev StandsOn : Table → Type 0
StandsOn (b, none, a) = ⊥
StandsOn (b, some r, a) = HasAge r × AllHaveAge a

go-StandsOn :
    (b : List Row) (c : Option Row) (a : List Row) (s' : Table)
    → AllHaveAge a
    → go (b, c, a) ≡ ok (s', true)
    → StandsOn s'
go-StandsOn b c [] s' h e =
    absurd (true≢false (sym (ap (λ (x : Table × Bool). x.1) (ok-injective e))))
go-StandsOn b c (r ∷ a) s' h e =
    subst StandsOn (ap (λ (x : Table × Bool). x.0) (ok-injective e)) (h.0, h.1)

passed-rest : (s : Table) → AllHaveAge s.2 → AllHaveAge (passed s).2
passed-rest (b, none, a) h = h
passed-rest (b, some r, a) h = h

next-StandsOn : (s s' : Table) → AllHaveAge s.2 → go (passed s) ≡ ok (s', true) → StandsOn s'
next-StandsOn (b, none, a) s' h e = go-StandsOn b none a s' h e
next-StandsOn (b, some r, a) s' h e = go-StandsOn (b ++ r ∷ []) none a s' h e

place_of-StandsOn : (s : Table) → StandsOn s → (rid : Rid) × (place_of s ≡ ok rid)
place_of-StandsOn (b, none, a) h = absurd h
place_of-StandsOn (b, some r, a) h = (record { block_number = pos 0; slot = pos (length b) }, refl)

current-StandsOn : (s : Table) → StandsOn s → (c : Constant) × (current s (codes "age") ≡ ok c)
current-StandsOn (b, none, a) h = absurd h
current-StandsOn (b, some r, a) h = h.0

StandsOn-rest : (s : Table) → StandsOn s → AllHaveAge s.2
StandsOn-rest (b, none, a) h = absurd h
StandsOn-rest (b, some r, a) h = h.1

removed-rest : (s s' : Table) → StandsOn s → removed s ≡ ok s' → AllHaveAge s'.2
removed-rest (b, none, a) s' h e = absurd h
removed-rest (b, some r, a) s' h e = subst (λ (x : Table). AllHaveAge x.2) (ok-injective e) h.1

set_current-rest :
    (s s' : Table) (c : Constant) → StandsOn s → set_current s c ≡ ok s' → AllHaveAge s'.2
set_current-rest (b, none, a) s' c h e = absurd h
set_current-rest (b, some r, a) s' c h e =
    subst (λ (x : Table). AllHaveAge x.2) (ok-injective e) h.1

abbrev row_laws : RowLaws table_scan placed (codes "age")
row_laws = record {
  Good = λ s. AllHaveAge s.2;
  On = StandsOn;
  next_on = next-StandsOn;
  insert_on =
      λ s s' h e. subst StandsOn (ok-injective e) ((int_constant (pos 0), refl), passed-rest s h);
  place = place_of-StandsOn;
  value = current-StandsOn;
  leave = StandsOn-rest;
  remove_good = removed-rest;
  set_good = set_current-rest;
}

execute_indexed-nil_example :
    (execute_delete_indexed table_scan placed 3 [] is_30 ([], none, people)
      ≡ execute_delete table_scan placed 3 is_30 ([], none, people))
    × (execute_modify_indexed table_scan placed 3 [] (codes "age") forty is_30 ([], none, people)
        ≡ execute_modify table_scan placed 3 (codes "age") forty is_30 ([], none, people))
    × (execute_insert_indexed table_scan placed 3 []
          (codes "age" ∷ [])
          (int_constant (pos 40) ∷ [])
          ([], none, people)
        ≡ execute_insert table_scan placed 3
            (codes "age" ∷ [])
            (int_constant (pos 40) ∷ [])
            ([], none, people))
execute_indexed-nil_example =
    execute_indexed-nil table_scan placed 3 is_30 (codes "age") forty (codes "age" ∷ [])
      (int_constant (pos 40) ∷ []) ([], none, people) row_laws
      ((int_constant (pos 20), refl), ((int_constant (pos 30), refl), tt))

-- A catalog with one view `v`, a query on the table `t`.
abbrev layout : Layout
layout = record {
  schema = add_int_field empty_schema (codes "age");
  offsets = (codes "age", 4) ∷ [];
  slot_size = 8;
}

abbrev on_table : QueryData
on_table = query_data (codes "age" ∷ []) (codes "t" ∷ []) [] [] [] no_queries

abbrev on_view : QueryData
on_view = query_data (codes "age" ∷ []) (codes "v" ∷ []) [] [] [] no_queries

abbrev catalog : Catalog
catalog = record {
  get_view_def = λ table. ok (if table == codes "v" then codes "text" else []);
  get_schema = λ table. ok layout.schema;
  get_table_plan =
      λ table. ok (table_plan table layout (record { num_blocks = 1; num_records = 3 }));
  parse_view = λ text. ok on_table;
}

catalog-CatalogRuns : CatalogRuns catalog
catalog-CatalogRuns = record {
  view_def_runs = λ table. tt;
  schema_runs = λ table. tt;
  table_plan_runs = λ table. tt;
  parse_runs = λ text. tt;
}

on_table-NestsBelow : NestsBelow catalog 1 on_table
unfolding in_order insert_name str_beq
on_table-NestsBelow = (
  (λ text q e some_text f. absurd (true≢false (ap is_empty (ok-injective e) ∙ some_text)), tt),
  tt,
)

on_view-NestsBelow : NestsBelow catalog 2 on_view
unfolding in_order insert_name str_beq
on_view-NestsBelow = (
  (λ text q e some_text f. subst (NestsBelow catalog 1) (ok-injective f) on_table-NestsBelow, tt),
  tt,
)

create_plan-Shows_example : RunsTo (Shows (codes "age" ∷ [])) (create_plan catalog 2 on_view)
create_plan-Shows_example =
    create_plan-Shows catalog catalog-CatalogRuns 2 on_view on_view-NestsBelow
