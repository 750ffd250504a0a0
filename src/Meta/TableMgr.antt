-- ===== src/Meta/TableMgr.antt =====
-- meta/TableMgr.cpp: the catalog of the tables and of their fields. The loops over the catalog have
-- fuel.
use sample_db.Base.{
  ℕ, zero, suc, List, [], ◌∷◌, Bool, true, false, Str, str_eq, codes, ℤ, pos, negsuc, int_eq, ◌==◌,
  Result, ok, err, starved, ◌>>=◌, if◌then◌else◌, put,
}
use sample_db.Logging.{to_offset}
use sample_db.Tx.Transaction.{Transaction, Waits}
use sample_db.Record.Schema.{
  Schema, empty_schema, add_int_field, add_bool_field, add_string_field, field_type, field_length,
}
use sample_db.Record.Layout.{Layout, new_layout}
use sample_db.Record.Layout
use sample_db.Record.TableScan.{
  TableScan, open_table, close, next_in, insert_in, get_string, get_int, set_string, set_int,
}

-- `MAX_NAME`.
abbrev pub max_name : ℕ
max_name = 16

abbrev pub tblname : Str
tblname = codes "tblname"

abbrev pub fldname : Str
fldname = codes "fldname"

abbrev pub slotsize : Str
slotsize = codes "slotsize"

abbrev pub type_field : Str
type_field = codes "type"

abbrev pub length_field : Str
length_field = codes "length"

abbrev pub offset_field : Str
offset_field = codes "offset"

abbrev pub tblcat : Str
tblcat = codes "tblcat"

abbrev pub fldcat : Str
fldcat = codes "fldcat"

abbrev pub tcat_schema : Schema
tcat_schema = add_int_field (add_string_field empty_schema tblname max_name) slotsize

abbrev pub fcat_schema : Schema
fcat_schema =
    add_int_field
      (add_int_field
        (add_int_field
          (add_string_field (add_string_field empty_schema tblname max_name) fldname max_name)
          type_field)
        length_field)
      offset_field

pub record TableMgr : Type 0 where
  pub tcat_layout : Layout
  pub fcat_layout : Layout

-- A layout as the catalog has it. The size of a slot is -1 if the table is missing.
pub record StoredLayout : Type 0 where
  pub schema : Schema
  pub offsets : List (Str × ℕ)
  pub slot_size : ℤ

-- As a layout of a table: slots of a negative size would be read in front of the block.
abbrev pub to_layout : StoredLayout → Result Layout
to_layout l = do
  size ← to_offset l.slot_size
  ok (record { schema = l.schema; offsets = l.offsets; slot_size = size })

-- The field of a record of the field catalog, by its type: another type adds none.
unfoldable pub add_stored : Schema → Str → ℤ → ℤ → Result Schema
add_stored s name type length =
    if type == pos 0
    then ok (add_int_field s name)
    else if type == pos 2
    then ok (add_bool_field s name)
    else if type == pos 1
    then (to_offset length >>= λ n. ok (add_string_field s name n))
    else ok s

module _ (env : Transaction → Waits) (fuel : ℕ) where
  -- The records of the fields of a new table.
  unfoldable pub insert_fields : Str → Schema → Layout → TableScan → List Str → Result TableScan
  insert_fields table schema layout s [] = ok s
  insert_fields table schema layout s (name ∷ names) = do
    s1 ← insert_in env fuel fuel s
    s2 ← set_string env fuel s1 tblname table
    s3 ← set_string env fuel s2 fldname name
    type ← field_type schema name
    s4 ← set_int env fuel s3 type_field (pos type)
    length ← field_length schema name
    s5 ← set_int env fuel s4 length_field (pos length)
    offset ← Layout.offset layout name
    s6 ← set_int env fuel s5 offset_field (pos offset)
    insert_fields table schema layout s6 names

  unfoldable pub create_table : TableMgr → Transaction → Str → Schema → Result Transaction
  create_table m t table schema = do
    layout ← new_layout schema
    tcat ← open_table env fuel t tblcat m.tcat_layout
    tcat1 ← insert_in env fuel fuel tcat
    tcat2 ← set_string env fuel tcat1 tblname table
    tcat3 ← set_int env fuel tcat2 slotsize (pos layout.slot_size)
    tcat4 ← close tcat3
    fcat ← open_table env fuel tcat4.tx fldcat m.fcat_layout
    fcat1 ← insert_fields table schema layout fcat schema.fields
    fcat2 ← close fcat1
    ok fcat2.tx

  -- The constructor: a new database gets the two catalogs, which hold themselves.
  unfoldable pub new_table_mgr : Bool → Transaction → Result (Transaction × TableMgr)
  new_table_mgr is_new t = do
    tcat_layout ← new_layout tcat_schema
    fcat_layout ← new_layout fcat_schema
    let m : TableMgr = record { tcat_layout = tcat_layout; fcat_layout = fcat_layout }
    elim is_new [
      | false ↦ ok (t, m)
      | true ↦ do
        t1 ← create_table m t tblcat tcat_schema
        t2 ← create_table m t1 fldcat fcat_schema
        ok (t2, m)
    ]

  -- The slot size of the first record of the table, -1 if there is none.
  unfoldable pub find_size : ℕ → Str → TableScan → Result (TableScan × ℤ)
  find_size zero table s = err starved
  find_size (suc n) table s = do
    (s1, more) ← next_in env fuel fuel s
    elim more [
      | false ↦ ok (s1, negsuc 0)
      | true ↦ do
        (s2, name) ← get_string env fuel s1 tblname
        elim (name == table) [ true ↦ get_int env fuel s2 slotsize | false ↦ find_size n table s2 ]
    ]

  -- A record of the field catalog is added to what was read.
  unfoldable pub read_field : TableScan → StoredLayout → Result (TableScan × StoredLayout)
  read_field s l = do
    (s1, name) ← get_string env fuel s fldname
    (s2, type) ← get_int env fuel s1 type_field
    (s3, length) ← get_int env fuel s2 length_field
    (s4, offset) ← get_int env fuel s3 offset_field
    at ← to_offset offset
    schema ← add_stored l.schema name type length
    ok (s4, record l { schema = schema; offsets = put name at l.offsets })

  unfoldable pub read_fields :
      ℕ → Str → TableScan → StoredLayout → Result (TableScan × StoredLayout)
  read_fields zero table s l = err starved
  read_fields (suc n) table s l = do
    (s1, more) ← next_in env fuel fuel s
    elim more [
      | false ↦ ok (s1, l)
      | true ↦ do
        (s2, name) ← get_string env fuel s1 tblname
        elim (name == table) [
          | false ↦ read_fields n table s2 l
          | true ↦ do (s3, l') ← read_field s2 l; read_fields n table s3 l'
        ]
    ]

  unfoldable pub get_layout : TableMgr → Transaction → Str → Result (Transaction × StoredLayout)
  get_layout m t table = do
    tcat ← open_table env fuel t tblcat m.tcat_layout
    (tcat1, size) ← find_size fuel table tcat
    tcat2 ← close tcat1
    fcat ← open_table env fuel tcat2.tx fldcat m.fcat_layout
    (fcat1, l) ←
        read_fields fuel table fcat
          (record { schema = empty_schema; offsets = []; slot_size = size })
    fcat2 ← close fcat1
    ok (fcat2.tx, l)

  -- The layout of a table that is there.
  abbrev pub table_layout : TableMgr → Transaction → Str → Result (Transaction × Layout)
  table_layout m t table = do (t', l) ← get_layout m t table; layout ← to_layout l; ok (t', layout)
