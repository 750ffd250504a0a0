-- ===== src/Plan/UpdatePlanner.antt =====
-- plan/BasicUpdatePlanner.cpp, indexing/IndexUpdatePlanner.cpp and the dispatch of plan/Planner.cpp:
-- updates as loops over the scan that a plan opens. The scan, its updates and the indexes of its
-- table are parameters on a state that they share. The loops have fuel.
pub mod Deletes
pub mod Indexes
use sample_db.Base.{
  ℕ, zero, suc, List, [], ◌∷◌, Bool, true, false, Option, none, some, Str, str_eq, Result, ok, err,
  fault, starved, ◌>>=◌, find,
}
use sample_db.Record.Schema.{Schema}
use sample_db.Scan.Constant.{Constant}
use sample_db.Scan.Predicate.{Predicate, Expression, evaluate}
use sample_db.Scan.Interface.{ScanOps, UpdateOps, Rid}
use sample_db.Scan.SelectScan.{select_scan, select_update}
use sample_db.Parse.Data.{
  QueryData, Command, delete_data, insert_data, modify_data, create_table_data, create_view_data,
  create_index_data,
}

-- An index: a value and the place of its record are removed and inserted.
pub record IndexOps (S : Type 0) : Type 0 where
  pub remove_entry : S → Constant → Rid → Result S
  pub insert_entry : S → Constant → Rid → Result S

-- The loops, on the scan of the plan.
module _ {S : Type 0} (scan : ScanOps S) (u : UpdateOps S) where
  unfoldable pub delete_rows : ℕ → S → ℕ → Result (S × ℕ)
  delete_rows zero s count = err starved
  delete_rows (suc n) s count = do
    (s1, more) ← scan.next s
    elim more [ false ↦ ok (s1, count) | true ↦ do s2 ← u.remove s1; delete_rows n s2 (suc count) ]

  unfoldable pub modify_rows : ℕ → Str → Expression → S → ℕ → Result (S × ℕ)
  modify_rows zero field expr s count = err starved
  modify_rows (suc n) field expr s count = do
    (s1, more) ← scan.next s
    elim more [
      | false ↦ ok (s1, count)
      | true ↦ do
        value ← evaluate expr (scan.get_value s1)
        s2 ← u.set_value s1 field value
        modify_rows n field expr s2 (suc count)
    ]

  -- `values[i]` past the end is a fault; values that are left over are not looked at.
  unfoldable pub set_values : List Str → List Constant → S → Result S
  set_values [] values s = ok s
  set_values (field ∷ fields) [] s = err fault
  set_values (field ∷ fields) (value ∷ values) s = do
    s' ← u.set_value s field value
    set_values fields values s'

  -- Each index loses the entry of the row.
  unfoldable pub remove_entries : List (Str × IndexOps S) → Rid → S → Result S
  remove_entries [] rid s = ok s
  remove_entries ((field, index) ∷ indexes) rid s = do
    value ← scan.get_value s field
    s' ← index.remove_entry s value rid
    remove_entries indexes rid s'

  unfoldable pub delete_indexed : ℕ → List (Str × IndexOps S) → S → ℕ → Result (S × ℕ)
  delete_indexed zero indexes s count = err starved
  delete_indexed (suc n) indexes s count = do
    (s1, more) ← scan.next s
    elim more [
      | false ↦ ok (s1, count)
      | true ↦ do
        rid ← u.get_rid s1
        s2 ← remove_entries indexes rid s1
        s3 ← u.remove s2
        delete_indexed n indexes s3 (suc count)
    ]

  -- The index of the field, if it has one, gets the new value for the old one.
  unfoldable pub change_entry : Option (IndexOps S) → Constant → Constant → S → Result S
  change_entry none old new s = ok s
  change_entry (some index) old new s = do
    rid ← u.get_rid s
    s' ← index.remove_entry s old rid
    index.insert_entry s' new rid

  unfoldable pub modify_indexed :
      ℕ → Str → Expression → Option (IndexOps S) → S → ℕ → Result (S × ℕ)
  modify_indexed zero field expr index s count = err starved
  modify_indexed (suc n) field expr index s count = do
    (s1, more) ← scan.next s
    elim more [
      | false ↦ ok (s1, count)
      | true ↦ do
        new ← evaluate expr (scan.get_value s1)
        old ← scan.get_value s1 field
        s2 ← u.set_value s1 field new
        s3 ← change_entry index old new s2
        modify_indexed n field expr index s3 (suc count)
    ]

  unfoldable pub add_entry : Option (IndexOps S) → Constant → Rid → S → Result S
  add_entry none value rid s = ok s
  add_entry (some index) value rid s = index.insert_entry s value rid

  unfoldable pub set_indexed :
      List (Str × IndexOps S) → Rid → List Str → List Constant → S → Result S
  set_indexed indexes rid [] values s = ok s
  set_indexed indexes rid (field ∷ fields) [] s = err fault
  set_indexed indexes rid (field ∷ fields) (value ∷ values) s = do
    s1 ← u.set_value s field value
    s2 ← add_entry (find field indexes) value rid s1
    set_indexed indexes rid fields values s2

-- The two planners, on the scan of the table.
module _ {S : Type 0} (scan : ScanOps S) (u : UpdateOps S) (fuel : ℕ) where
  -- The end of a loop: the scan is closed, and the count comes back.
  abbrev pub closing : ScanOps S → S × ℕ → Result (S × ℕ)
  closing opened x = do s ← opened.close x.0; ok (s, x.1)

  -- `executeDelete`, `executeModify` and `executeInsert` of the basic planner.
  unfoldable pub execute_delete : Predicate → S → Result (S × ℕ)
  execute_delete pred s = do
    let opened = select_scan scan pred fuel
    x ← delete_rows opened (select_update (some u)) fuel s 0
    closing opened x

  unfoldable pub execute_modify : Str → Expression → Predicate → S → Result (S × ℕ)
  execute_modify field expr pred s = do
    let opened = select_scan scan pred fuel
    x ← modify_rows opened (select_update (some u)) fuel field expr s 0
    closing opened x

  unfoldable pub execute_insert : List Str → List Constant → S → Result (S × ℕ)
  execute_insert fields values s = do
    s1 ← u.insert s
    s2 ← set_values scan u fields values s1
    closing scan (s2, 1)

  -- The same of the planner that keeps the indexes.
  unfoldable pub execute_delete_indexed : List (Str × IndexOps S) → Predicate → S → Result (S × ℕ)
  execute_delete_indexed indexes pred s = do
    let opened = select_scan scan pred fuel
    x ← delete_indexed opened (select_update (some u)) fuel indexes s 0
    closing opened x

  unfoldable pub execute_modify_indexed :
      List (Str × IndexOps S) → Str → Expression → Predicate → S → Result (S × ℕ)
  execute_modify_indexed indexes field expr pred s = do
    let opened = select_scan scan pred fuel
    x ← modify_indexed opened (select_update (some u)) fuel field expr (find field indexes) s 0
    closing opened x

  unfoldable pub execute_insert_indexed :
      List (Str × IndexOps S) → List Str → List Constant → S → Result (S × ℕ)
  execute_insert_indexed indexes fields values s = do
    s1 ← u.insert s
    rid ← u.get_rid s1
    s2 ← set_indexed scan u indexes rid fields values s1
    closing scan (s2, 1)

-- What a planner of updates offers, on a state `W`: the number of rows comes back.
pub record UpdatePlanner (W : Type 0) : Type 0 where
  pub run_insert : Str → List Str → List Constant → W → Result (W × ℕ)
  pub run_delete : Str → Predicate → W → Result (W × ℕ)
  pub run_modify : Str → Str → Expression → Predicate → W → Result (W × ℕ)
  pub run_create_table : Str → Schema → W → Result (W × ℕ)
  pub run_create_view : Str → QueryData → W → Result (W × ℕ)
  pub run_create_index : Str → Str → Str → W → Result (W × ℕ)

-- `executeUpdate` of the planner, once the command was parsed.
unfoldable pub execute_update : {W : Type 0} → UpdatePlanner W → Command → W → Result (W × ℕ)
execute_update p (insert_data table fields values) w = p.run_insert table fields values w
execute_update p (delete_data table pred) w = p.run_delete table pred w
execute_update p (modify_data table field expr pred) w = p.run_modify table field expr pred w
execute_update p (create_table_data table schema) w = p.run_create_table table schema w
execute_update p (create_view_data view query) w = p.run_create_view view query w
execute_update p (create_index_data index table field) w = p.run_create_index index table field w
