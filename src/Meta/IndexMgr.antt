-- ===== src/Meta/IndexMgr.antt =====
-- meta/IndexMgr.cpp and IndexInfo.cpp: the catalog of indexes.
use sample_db.Base.{
  ℕ, zero, suc, ◌/◌, List, [], Bool, true, false, ◌||◌, Option, Str, str_eq, codes, ◌==◌, Result,
  ok, err, fault, starved, ◌>>=◌, of_option, if◌then◌else◌, nat_beq, put,
}
use sample_db.Tx.Transaction.{Transaction, Waits}
use sample_db.Record.Schema.{
  Schema, empty_schema, add_int_field, add_string_field, field_type, field_length, integer,
}
use sample_db.Record.Layout.{Layout, new_layout}
use sample_db.Record.TableScan.{
  TableScan, open_table, close, next_in, insert_in, get_string, set_string,
}
use sample_db.Indexing.BTreePage.{block_field, id_field, data_val}
use sample_db.Indexing.BTreeIndex.{BTreeIndex, new_btree_index}
use sample_db.Meta.TableMgr.{TableMgr, create_table, table_layout, max_name}
use sample_db.Meta.StatMgr.{StatInfo, StatMgr, get_stat_info, stat_distinct_values}

abbrev pub idxcat : Str
idxcat = codes "idxcat"

abbrev pub indexname : Str
indexname = codes "indexname"

abbrev pub tablename : Str
tablename = codes "tablename"

abbrev pub fieldname : Str
fieldname = codes "fieldname"

pub record IndexInfo : Type 0 where
  pub index_name : Str
  pub field_name : Str
  pub schema : Schema
  pub stat_info : Option StatInfo
  pub layout : Layout

-- `createIndexLayout`: the place of a record and the value of its field.
unfoldable pub create_index_layout : Schema → Str → Result Layout
create_index_layout schema field = do
  let base : Schema = add_int_field (add_int_field empty_schema block_field) id_field
  type ← field_type schema field
  index_schema ←
      if nat_beq type integer
      then ok (add_int_field base data_val)
      else (field_length schema field >>= λ n. ok (add_string_field base data_val n))
  new_layout index_schema

-- The constructor.
unfoldable pub new_index_info : Str → Str → Schema → Option StatInfo → Result IndexInfo
new_index_info index_name field schema stats = do
  layout ← create_index_layout schema field
  ok (record {
    index_name = index_name;
    field_name = field;
    schema = schema;
    stat_info = stats;
    layout = layout;
  })

-- `recordsOutput` and `distinctValues` of an index.
unfoldable pub index_records_output : IndexInfo → Result ℕ
index_records_output i = do
  stats ← of_option i.stat_info fault
  ok (stats.num_records / stat_distinct_values stats)

unfoldable pub index_distinct_values : IndexInfo → Str → Result ℕ
index_distinct_values i field =
    if i.field_name == field
    then ok 1
    else (of_option i.stat_info fault >>= λ stats. ok (stat_distinct_values stats))

-- `isNull`.
abbrev pub index_is_null : IndexInfo → Bool
index_is_null i = i.index_name == [] || i.field_name == []

module _ (env : Transaction → Waits) (fuel : ℕ) where
  -- `open`.
  abbrev pub open_index : IndexInfo → Transaction → Result (Transaction × BTreeIndex)
  open_index i t = new_btree_index env fuel t i.index_name i.layout

  -- The constructor gives the layout of the catalog.
  unfoldable pub new_index_mgr : Bool → TableMgr → Transaction → Result (Transaction × Layout)
  new_index_mgr is_new tm t = do
    t' ←
        if is_new
        then create_table env fuel tm t idxcat (
            add_string_field
              (add_string_field (add_string_field empty_schema indexname max_name) tablename
                max_name)
              fieldname max_name)
        else ok t
    table_layout env fuel tm t' idxcat

  unfoldable pub create_index : Layout → Transaction → Str → Str → Str → Result Transaction
  create_index layout t index table field = do
    s ← open_table env fuel t idxcat layout
    s1 ← insert_in env fuel fuel s
    s2 ← set_string env fuel s1 indexname index
    s3 ← set_string env fuel s2 tablename table
    s4 ← set_string env fuel s3 fieldname field
    s5 ← close s4
    ok s5.tx

  -- The index of the current record of the catalog.
  unfoldable pub read_index :
      TableMgr → StatMgr → TableScan → Str → Result ((TableScan × StatMgr) × IndexInfo)
  read_index tm m s table = do
    (s1, index) ← get_string env fuel s indexname
    (s2, field) ← get_string env fuel s1 fieldname
    (t1, layout) ← table_layout env fuel tm s2.tx table
    ((t2, m'), stats) ← get_stat_info env fuel tm m t1 table layout
    info ← new_index_info index field layout.schema stats
    ok ((record s2 { tx = t2 }, m'), info)

  -- The loop of `getIndexInfo`: by the field, the last index of a field.
  unfoldable pub read_indexes :
      ℕ
      → TableMgr
      → StatMgr
      → TableScan
      → Str
      → List (Str × IndexInfo)
      → Result ((TableScan × StatMgr) × List (Str × IndexInfo))
  read_indexes zero tm m s table infos = err starved
  read_indexes (suc n) tm m s table infos = do
    (s1, more) ← next_in env fuel fuel s
    elim more [
      | false ↦ ok ((s1, m), infos)
      | true ↦ do
        (s2, name) ← get_string env fuel s1 tablename
        elim (name == table) [
          | false ↦ read_indexes n tm m s2 table infos
          | true ↦ do
            ((s3, m'), info) ← read_index tm m s2 table
            read_indexes n tm m' s3 table (put info.field_name info infos)
        ]
    ]

  unfoldable pub get_index_info :
      Layout
      → TableMgr
      → StatMgr
      → Transaction
      → Str
      → Result ((Transaction × StatMgr) × List (Str × IndexInfo))
  get_index_info layout tm m t table = do
    s ← open_table env fuel t idxcat layout
    ((s1, m'), infos) ← read_indexes fuel tm m s table []
    s2 ← close s1
    ok ((s2.tx, m'), infos)
