-- ===== src/Record/TableScan.antt =====
-- record/TableScan.cpp: the records of a table, block after block. The loops over the blocks have
-- fuel; so have those over the slots of a block.
use sample_db.Base.{
  ℕ, zero, suc, ◌++◌, Bool, true, false, not, ◌||◌, Str, codes, ℤ, pos, negsuc, ◌+ℤ◌, int_lt,
  int_eq, ◌==◌, Option, none, some, Result, ok, err, fault, starved, ◌>>=◌, of_option,
  if◌then◌else◌, nat_beq,
}
use sample_db.File.BlockId.{BlockId}
use sample_db.Tx.Transaction.{Transaction, Waits}
use sample_db.Tx.Transaction
use sample_db.Record.Schema.{has_field, field_type, integer, boolean}
use sample_db.Record.Layout.{Layout}
use sample_db.Record.RecordPage.{RecordPage, new_record_page}
use sample_db.Record.RecordPage
use sample_db.Scan.Constant.{Constant, int_constant, string_constant}
use sample_db.Scan.Interface.{Rid}

-- The transaction is the one that the scan was opened in; `page` is the current record page.
pub record TableScan : Type 0 where
  pub tx : Transaction
  pub layout : Layout
  pub page : Option RecordPage
  pub file_name : Str
  pub current_slot : ℤ

unfoldable pub page_of : TableScan → Result RecordPage
page_of s = of_option s.page fault

-- `close`: the block of the record page is unpinned.
unfoldable pub close : TableScan → Result TableScan
close s = elim s.page [
  | none ↦ ok s
  | some rp ↦ do t ← Transaction.unpin s.tx rp.blk; ok (record s { tx = t })
]

module _ (env : Transaction → Waits) (fuel : ℕ) where
  -- The record page of a block takes the place of the one before, at a slot.
  unfoldable pub on_block : TableScan → BlockId → ℤ → Result TableScan
  on_block s blk slot = do
    (t, rp) ← new_record_page env s.tx blk s.layout
    ok (record s { tx = t; page = some rp; current_slot = slot })

  unfoldable pub move_to_block : TableScan → ℤ → Result TableScan
  move_to_block s n = do
    s' ← close s
    on_block s' (record { file_name = s.file_name; number = n }) (negsuc 0)

  unfoldable pub move_to_new_block : TableScan → Result TableScan
  move_to_new_block s = do
    s1 ← close s
    (t, blk) ← Transaction.append_block env s1.tx s.file_name
    s2 ← on_block (record s1 { tx = t }) blk (negsuc 0)
    rp ← page_of s2
    t' ← RecordPage.format env fuel s2.tx rp
    ok (record s2 { tx = t' })

  -- The constructor.
  unfoldable pub open_table : Transaction → Str → Layout → Result TableScan
  open_table t name layout = do
    let file_name = name ++ codes ".tbl"
    (t', n) ← Transaction.size env t file_name
    let s : TableScan = record {
      tx = t';
      layout = layout;
      page = none;
      file_name = file_name;
      current_slot = negsuc 0;
    }
    if nat_beq n 0 then move_to_new_block s else move_to_block s (pos 0)

  unfoldable pub at_end_of_block : TableScan → Result (TableScan × Bool)
  at_end_of_block s = do
    rp ← page_of s
    (t, n) ← Transaction.size env s.tx s.file_name
    ok (record s { tx = t }, rp.blk.number == pos n +ℤ negsuc 0)

  abbrev pub before_first : TableScan → Result TableScan
  before_first s = move_to_block s (pos 0)

  -- To the block after the one of the record page.
  unfoldable pub move_on : TableScan → Result TableScan
  move_on s = do rp ← page_of s; move_to_block s (rp.blk.number +ℤ pos 1)

  -- `_currentSlot = _recordPage->nextAfter(_currentSlot)`, and the same with `insertAfter`.
  unfoldable pub step_next : TableScan → Result TableScan
  step_next s = do
    rp ← page_of s
    (t, slot) ← RecordPage.next_after env fuel s.tx rp s.current_slot
    ok (record s { tx = t; current_slot = slot })

  unfoldable pub step_insert : TableScan → Result TableScan
  step_insert s = do
    rp ← page_of s
    (t, slot) ← RecordPage.insert_after env fuel s.tx rp s.current_slot
    ok (record s { tx = t; current_slot = slot })

  -- `next`: the blocks that have no used slot are passed.
  unfoldable pub next_in : ℕ → TableScan → Result (TableScan × Bool)
  next_in zero s = err starved
  next_in (suc n) s = do
    s1 ← step_next s
    elim (int_lt s1.current_slot (pos 0)) [
      | false ↦ ok (s1, true)
      | true ↦ do
        (s2, at_end) ← at_end_of_block s1
        elim at_end [ true ↦ ok (s2, false) | false ↦ do s3 ← move_on s2; next_in n s3 ]
    ]

  -- `insert`: a block that is full is passed, and after the last one a new block is made.
  unfoldable pub insert_in : ℕ → TableScan → Result TableScan
  insert_in zero s = err starved
  insert_in (suc n) s = do
    s1 ← step_insert s
    elim (int_lt s1.current_slot (pos 0)) [
      | false ↦ ok s1
      | true ↦ do
        (s2, at_end) ← at_end_of_block s1
        s3 ← if at_end then move_to_new_block s2 else move_on s2
        insert_in n s3
    ]

  unfoldable pub get_int : TableScan → Str → Result (TableScan × ℤ)
  get_int s name = do
    rp ← page_of s
    (t, val) ← RecordPage.get_int env s.tx rp s.current_slot name
    ok (record s { tx = t }, val)

  unfoldable pub get_bool : TableScan → Str → Result (TableScan × Bool)
  get_bool s name = do (s', val) ← get_int s name; ok (s', not (val == pos 0))

  unfoldable pub get_string : TableScan → Str → Result (TableScan × Str)
  get_string s name = do
    rp ← page_of s
    (t, val) ← RecordPage.get_string env s.tx rp s.current_slot name
    ok (record s { tx = t }, val)

  unfoldable pub get_value : TableScan → Str → Result (TableScan × Constant)
  get_value s name = do
    type ← field_type s.layout.schema name
    if nat_beq type integer || nat_beq type boolean
        then (get_int s name >>= λ x. ok (x.0, int_constant x.1))
        else (get_string s name >>= λ x. ok (x.0, string_constant x.1))

  unfoldable pub set_int : TableScan → Str → ℤ → Result TableScan
  set_int s name val = do
    rp ← page_of s
    t ← RecordPage.set_int env s.tx rp s.current_slot name val
    ok (record s { tx = t })

  abbrev pub set_bool : TableScan → Str → Bool → Result TableScan
  set_bool s name val = set_int s name (if val then pos 1 else pos 0)

  unfoldable pub set_string : TableScan → Str → Str → Result TableScan
  set_string s name val = do
    rp ← page_of s
    t ← RecordPage.set_string env s.tx rp s.current_slot name val
    ok (record s { tx = t })

  -- `setValue`: `asInt` and `asString` of the constant, which it must have.
  unfoldable pub set_value : TableScan → Str → Constant → Result TableScan
  set_value s name val = do
    type ← field_type s.layout.schema name
    if nat_beq type integer || nat_beq type boolean
        then (of_option val.ival fault >>= λ n. set_int s name n)
        else (of_option val.sval fault >>= λ str. set_string s name str)

  unfoldable pub remove : TableScan → Result TableScan
  remove s = do
    rp ← page_of s
    t ← RecordPage.remove env s.tx rp s.current_slot
    ok (record s { tx = t })

  unfoldable pub move_to_rid : TableScan → Rid → Result TableScan
  move_to_rid s rid = do
    s' ← close s
    on_block s' (record { file_name = s.file_name; number = rid.block_number }) rid.slot

abbrev pub table_has_field : TableScan → Str → Bool
table_has_field s name = has_field s.layout.schema name

unfoldable pub get_rid : TableScan → Result Rid
get_rid s = do rp ← page_of s; ok (record { block_number = rp.blk.number; slot = s.current_slot })
