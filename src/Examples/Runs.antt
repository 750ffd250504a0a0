-- ===== src/Examples/Runs.antt =====
-- Merges of temporary tables that are lists of rows.
use sample_db.Base.{
  ◌≡◌, refl, ℕ, ◌≤◌, List, [], ◌∷◌, ◌++◌, length, codes, true, false, Bool, Option, none, some, pos,
  Result, ok, err, fault, thrown, ◌>>=◌, arith, Succeeds, get_elem?, set, of_option, ◌⊎◌, inl, inr,
}
use sample_db.Scan.Constant.{Constant, constant_lt, constant_gt, compare_by}
use sample_db.Scan.Predicate.{Row}
use sample_db.Materialize.RecordComparator.{compare}
use sample_db.Materialize.SortPlan.{
  TempTables, copy, copy_fields, copy_rest, merge_two_runs, merge_rows, merge_rest, merge_all,
}
use sample_db.Materialize.SortPlan.Merging.{Merges, merge_all-Succeeds}
use sample_db.Examples.Scans.{aged, no_row}

-- An open scan: its table, its current row and the rows to come.
abbrev Cursor : Type 0
Cursor = ℕ × Option Row × List Row

-- The tables and the open scans, which are numbered.
abbrev Store : Type 0
Store = List (List Row) × List Cursor

abbrev open_cursor : ℕ → Store → Result (Store × ℕ)
open_cursor temp w = do
  rows ← of_option (get_elem? w.0 temp) fault
  ok ((w.0, w.1 ++ (temp, none, rows) ∷ []), length w.1)

abbrev moved : Store → ℕ → Cursor → Store × Bool
moved w h (temp, c, []) = (w, false)
moved w h (temp, c, r ∷ rs) = ((w.0, set w.1 h (temp, some r, rs)), true)

abbrev next_cursor : ℕ → Store → Result (Store × Bool)
next_cursor h w = do c ← of_option (get_elem? w.1 h) fault; ok (moved w h c)

abbrev value_at : ℕ → Store → List ℕ → Result Constant
value_at h w name = do c ← of_option (get_elem? w.1 h) fault; r ← of_option (c.1) fault; r name

-- A new row goes to the end of the scan's table.
abbrev insert_at : ℕ → Store → Result Store
insert_at h w = do
  c ← of_option (get_elem? w.1 h) fault
  rows ← of_option (get_elem? w.0 (c.0)) fault
  ok (set w.0 (c.0) (rows ++ no_row ∷ []), w.1)

abbrev set_last : Constant → List Row → List Row
set_last c [] = []
set_last c (r ∷ []) = (λ name. ok c) ∷ []
set_last c (r ∷ q ∷ rows) = r ∷ set_last c (q ∷ rows)

abbrev set_value_at : ℕ → Store → Constant → Result Store
set_value_at h w value = do
  c ← of_option (get_elem? w.1 h) fault
  rows ← of_option (get_elem? w.0 (c.0)) fault
  ok (set w.0 (c.0) (set_last value rows), w.1)

abbrev store_temps : TempTables Store ℕ ℕ
store_temps = record {
  new_temp = λ w. ok ((w.0 ++ [] ∷ [], w.1), length w.0);
  open_temp = open_cursor;
  scan_of = λ h. record {
    before_first = λ w. ok w;
    next = next_cursor h;
    get_int = λ w name. err thrown;
    get_bool = λ w name. err thrown;
    get_string = λ w name. err thrown;
    get_value = λ w name. value_at h w name;
    has_field = λ w name. true;
    close = λ w. ok w;
  };
  update_of = λ h. record {
    set_int = λ w name value. err thrown;
    set_string = λ w name value. err thrown;
    set_value = λ w name value. set_value_at h w value;
    insert = insert_at h;
    remove = λ w. err thrown;
    move_to_rid = λ w rid. err thrown;
    get_rid = λ w. err thrown;
  };
}

abbrev age : List (List ℕ)
age = codes "age" ∷ []

-- Three runs of two, one and one rows.
abbrev three : Store
three = ((aged (pos 10) ∷ aged (pos 30) ∷ []) ∷ (aged (pos 20) ∷ []) ∷ (aged (pos 5) ∷ []) ∷ [], [])

abbrev merged : ℕ → ℕ → Store → Result (Store × ℕ)
merged a b w = merge_two_runs store_temps age age 5 a b w

abbrev state_of : Result (Store × ℕ) → Store
state_of (ok x) = x.0
state_of (err e) = three

-- The states that merges of neighbours lead to.
data Stage : Store → List ℕ → Type 0 where
  start : {w : Store} {runs : List ℕ} → w ≡ three → runs ≡ 0 ∷ 1 ∷ 2 ∷ [] → Stage w runs
  first_two :
      {w : Store} {runs : List ℕ}
      → w ≡ state_of (merged 0 1 three)
      → runs ≡ 3 ∷ 2 ∷ []
      → Stage w runs
  last_two :
      {w : Store} {runs : List ℕ}
      → w ≡ state_of (merged 1 2 three)
      → runs ≡ 0 ∷ 3 ∷ []
      → Stage w runs
  all_merged : {w : Store} {runs : List ℕ} → runs ≡ 4 ∷ [] → Stage w runs

-- The places of two neighbours in a short list.
neighbours_of_three :
    (before behind : List ℕ) (a b x y z : ℕ)
    → before ++ a ∷ b ∷ behind ≡ x ∷ y ∷ z ∷ []
    → ((before ≡ []) × (a ≡ x) × (b ≡ y) × (behind ≡ z ∷ []))
      ⊎ ((before ≡ x ∷ []) × (a ≡ y) × (b ≡ z) × (behind ≡ []))
neighbours_of_three [] behind a b x y z e = inl (refl, cc, cc, cc)
neighbours_of_three (p ∷ []) behind a b x y z e = inr (cc, cc, cc, cc)
neighbours_of_three (p ∷ q ∷ []) behind a b x y z e = cc
neighbours_of_three (p ∷ q ∷ r ∷ more) behind a b x y z e = absurd (no_more more behind a b cc)
  where
    no_more : (more behind : List ℕ) (a b : ℕ) → ◌≡◌ {A = List ℕ} (more ++ a ∷ b ∷ behind) [] → ⊥
    no_more [] behind a b e = cc
    no_more (m ∷ more) behind a b e = cc

neighbours_of_two :
    (before behind : List ℕ) (a b x y : ℕ)
    → before ++ a ∷ b ∷ behind ≡ x ∷ y ∷ []
    → (before ≡ []) × (a ≡ x) × (b ≡ y) × (behind ≡ [])
neighbours_of_two [] behind a b x y e = (refl, cc, cc, cc)
neighbours_of_two (p ∷ []) behind a b x y e = cc
neighbours_of_two (p ∷ q ∷ []) behind a b x y e = cc
neighbours_of_two (p ∷ q ∷ r ∷ more) behind a b x y e = cc

neighbours_of_one : (before behind : List ℕ) (a b x : ℕ) → before ++ a ∷ b ∷ behind ≡ x ∷ [] → ⊥
neighbours_of_one [] behind a b x e = cc
neighbours_of_one (p ∷ []) behind a b x e = cc
neighbours_of_one (p ∷ q ∷ more) behind a b x e = cc

stage-Merges : Merges store_temps age age 5 Stage
unfolding merge_two_runs merge_rows merge_rest copy_rest copy copy_fields compare constant_lt
    constant_gt compare_by
stage-Merges w before a b behind (start ew er) =
    elim (neighbours_of_three before behind a b 0 1 2 er) [
      | inl (e, f, g, h) ↦ rw (ew, e, f, g, h) (first_two refl refl)
      | inr (e, f, g, h) ↦ rw (ew, e, f, g, h) (last_two refl refl)
    ]
stage-Merges w before a b behind (first_two ew er) =
    let (e, f, g, h) = neighbours_of_two before behind a b 3 2 er in
    rw (ew, e, f, g, h) (all_merged refl)
stage-Merges w before a b behind (last_two ew er) =
    let (e, f, g, h) = neighbours_of_two before behind a b 0 3 er in
    rw (ew, e, f, g, h) (all_merged refl)
stage-Merges w before a b behind (all_merged er) = absurd (neighbours_of_one before behind a b 4 er)

merge_all-Succeeds_example :
    Succeeds
      (λ x. Stage x.0 x.1 × (length x.1 ≤ 2))
      (merge_all store_temps age age 5 4 (0 ∷ 1 ∷ 2 ∷ []) three)
merge_all-Succeeds_example =
    merge_all-Succeeds store_temps age age 5 Stage stage-Merges 3 (0 ∷ 1 ∷ 2 ∷ []) three
      (start refl refl) (omega arith)
