-- ===== src/Meta/ViewMgr.antt =====
-- meta/ViewMgr.cpp: the catalog of views.
use sample_db.Base.{
  ℕ, zero, suc, [], Bool, true, false, Str, str_eq, codes, ◌==◌, Result, ok, err, starved, ◌>>=◌,
}
use sample_db.Tx.Transaction.{Transaction, Waits}
use sample_db.Record.Schema.{empty_schema, add_string_field}
use sample_db.Record.TableScan.{
  TableScan, open_table, close, next_in, insert_in, get_string, set_string,
}
use sample_db.Meta.TableMgr.{TableMgr, create_table, table_layout, max_name}

-- `MAX_VIEW_DEF`.
abbrev pub max_view_def : ℕ
max_view_def = 100

abbrev pub viewcat : Str
viewcat = codes "viewcat"

abbrev pub viewname : Str
viewname = codes "viewname"

abbrev pub viewdef : Str
viewdef = codes "viewdef"

module _ (env : Transaction → Waits) (fuel : ℕ) where
  -- The constructor.
  unfoldable pub new_view_mgr : Bool → TableMgr → Transaction → Result Transaction
  new_view_mgr false tm t = ok t
  new_view_mgr true tm t =
      create_table env fuel tm t viewcat
        (add_string_field (add_string_field empty_schema viewname max_name) viewdef max_view_def)

  unfoldable pub create_view : TableMgr → Transaction → Str → Str → Result Transaction
  create_view tm t name vdef = do
    (t1, layout) ← table_layout env fuel tm t viewcat
    s ← open_table env fuel t1 viewcat layout
    s1 ← insert_in env fuel fuel s
    s2 ← set_string env fuel s1 viewname name
    s3 ← set_string env fuel s2 viewdef vdef
    s4 ← close s3
    ok s4.tx

  -- The loop of `getViewDef`: the empty text if there is no such view.
  unfoldable pub find_view : ℕ → Str → TableScan → Result (TableScan × Str)
  find_view zero name s = err starved
  find_view (suc n) name s = do
    (s1, more) ← next_in env fuel fuel s
    elim more [
      | false ↦ ok (s1, [])
      | true ↦ do
        (s2, found) ← get_string env fuel s1 viewname
        elim (found == name) [ true ↦ get_string env fuel s2 viewdef | false ↦ find_view n name s2 ]
    ]

  unfoldable pub get_view_def : TableMgr → Transaction → Str → Result (Transaction × Str)
  get_view_def tm t name = do
    (t1, layout) ← table_layout env fuel tm t viewcat
    s ← open_table env fuel t1 viewcat layout
    (s1, vdef) ← find_view fuel name s
    s2 ← close s1
    ok (s2.tx, vdef)
