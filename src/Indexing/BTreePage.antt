-- ===== src/Indexing/BTreePage.antt =====
-- indexing/BTreePage.cpp: a block as a sorted row of records. It begins with a flag and the number
-- of its records. The loops have fuel. Also indexing/DirEntry.cpp.
pub mod Search
use sample_db.Base.{
  ℕ, zero, suc, List, [], ◌∷◌, Bool, true, false, not, ◌&&◌, Str, codes, ℤ, pos, negsuc, ◌+ℤ◌,
  int_lt, int_eq, ◌==◌, Result, ok, err, fault, thrown, starved, ◌>>=◌, of_option, if◌then◌else◌,
  nat_beq,
}
use sample_db.File.BlockId.{BlockId, is_null}
use sample_db.Tx.Transaction.{Transaction, Waits, block_size, append_block}
use sample_db.Tx.Transaction
use sample_db.Record.Schema.{field_type, integer, varchar}
use sample_db.Record.Layout.{Layout}
use sample_db.Record.Layout
use sample_db.Record.RecordPage.{slot_offset}
use sample_db.Scan.Constant.{Constant, int_constant, string_constant, constant_lt}
use sample_db.Scan.Interface.{Rid}

pub record BTreePage : Type 0 where
  pub blk : BlockId
  pub layout : Layout

abbrev pub data_val : Str
data_val = codes "dataval"

abbrev pub block_field : Str
block_field = codes "block"

abbrev pub id_field : Str
id_field = codes "id"

-- `slotPos` and `fldPos`.
abbrev pub slot_pos : BTreePage → ℤ → ℤ
slot_pos p slot = pos 8 +ℤ slot_offset p.layout slot

unfoldable pub fld_pos : BTreePage → ℤ → Str → Result ℤ
fld_pos p slot name = do at ← Layout.offset p.layout name; ok (slot_pos p slot +ℤ pos at)

-- `close`: the block becomes the null block.
unfoldable pub close : Transaction → BTreePage → Result (Transaction × BTreePage)
close t p = do
  t' ← if is_null p.blk then ok t else Transaction.unpin t p.blk
  ok (t', record p { blk = record { file_name = []; number = negsuc 0 } })

module _ (env : Transaction → Waits) where
  -- The constructor pins the block.
  unfoldable pub new_btree_page : Transaction → BlockId → Layout → Result (Transaction × BTreePage)
  new_btree_page t blk layout = do
    t' ← Transaction.pin env t blk
    ok (t', record { blk = blk; layout = layout })

  abbrev pub get_flag : Transaction → BTreePage → Result (Transaction × ℤ)
  get_flag t p = Transaction.get_int env t p.blk (pos 0)

  abbrev pub set_flag : Transaction → BTreePage → ℤ → Result Transaction
  set_flag t p val = Transaction.set_int env t p.blk (pos 0) val true

  abbrev pub get_num_recs : Transaction → BTreePage → Result (Transaction × ℤ)
  get_num_recs t p = Transaction.get_int env t p.blk (pos 4)

  abbrev pub set_num_recs : Transaction → BTreePage → ℤ → Result Transaction
  set_num_recs t p n = Transaction.set_int env t p.blk (pos 4) n true

  unfoldable pub get_int : Transaction → BTreePage → ℤ → Str → Result (Transaction × ℤ)
  get_int t p slot name = do at ← fld_pos p slot name; Transaction.get_int env t p.blk at

  unfoldable pub get_string : Transaction → BTreePage → ℤ → Str → Result (Transaction × Str)
  get_string t p slot name = do at ← fld_pos p slot name; Transaction.get_string env t p.blk at

  -- `getValue`: a field that is neither an integer nor a string throws.
  unfoldable pub get_value : Transaction → BTreePage → ℤ → Str → Result (Transaction × Constant)
  get_value t p slot name = do
    type ← field_type p.layout.schema name
    if nat_beq type integer
        then (get_int t p slot name >>= λ x. ok (x.0, int_constant x.1))
        else if nat_beq type varchar
        then (get_string t p slot name >>= λ x. ok (x.0, string_constant x.1))
        else err thrown

  unfoldable pub set_int : Transaction → BTreePage → ℤ → Str → ℤ → Result Transaction
  set_int t p slot name val = do
    at ← fld_pos p slot name
    Transaction.set_int env t p.blk at val true

  unfoldable pub set_string : Transaction → BTreePage → ℤ → Str → Str → Result Transaction
  set_string t p slot name val = do
    at ← fld_pos p slot name
    Transaction.set_string env t p.blk at val true

  unfoldable pub set_value : Transaction → BTreePage → ℤ → Str → Constant → Result Transaction
  set_value t p slot name val = do
    type ← field_type p.layout.schema name
    if nat_beq type integer
        then (of_option val.ival fault >>= λ n. set_int t p slot name n)
        else if nat_beq type varchar
        then (of_option val.sval fault >>= λ s. set_string t p slot name s)
        else err thrown

  abbrev pub get_data_val : Transaction → BTreePage → ℤ → Result (Transaction × Constant)
  get_data_val t p slot = get_value t p slot data_val

  -- The loop of `findSlotBefore`: past the records whose value is less than the key.
  unfoldable pub slot_of_key : ℕ → Transaction → BTreePage → Constant → ℤ → Result (Transaction × ℤ)
  slot_of_key zero t p key slot = err starved
  slot_of_key (suc fuel) t p key slot = do
    (t1, n) ← get_num_recs t p
    elim (int_lt slot n) [
      | false ↦ ok (t1, slot)
      | true ↦ do
        (t2, val) ← get_data_val t1 p slot
        less ← constant_lt val key
        elim less [ false ↦ ok (t2, slot) | true ↦ slot_of_key fuel t2 p key (slot +ℤ pos 1) ]
    ]

  unfoldable pub find_slot_before :
      ℕ → Transaction → BTreePage → Constant → Result (Transaction × ℤ)
  find_slot_before fuel t p key = do
    (t', slot) ← slot_of_key fuel t p key (pos 0)
    ok (t', slot +ℤ negsuc 0)

  unfoldable pub is_full : Transaction → BTreePage → Result (Transaction × Bool)
  is_full t p = do
    (t', n) ← get_num_recs t p
    ok (t', not (int_lt (slot_pos p (n +ℤ pos 1)) (pos (block_size t'))))

  -- `copyRecord`, field by field.
  unfoldable pub copy_fields : Transaction → BTreePage → ℤ → ℤ → List Str → Result Transaction
  copy_fields t p source target [] = ok t
  copy_fields t p source target (name ∷ names) = do
    (t1, val) ← get_value t p source name
    t2 ← set_value t1 p target name val
    copy_fields t2 p source target names

  abbrev pub copy_record : Transaction → BTreePage → ℤ → ℤ → Result Transaction
  copy_record t p source target = copy_fields t p source target p.layout.schema.fields

  -- The loop of `insert`: the records from `slot` on go one up, the last one first.
  unfoldable pub shift_up : ℕ → Transaction → BTreePage → ℤ → ℤ → Result Transaction
  shift_up zero t p slot i = err starved
  shift_up (suc fuel) t p slot i = elim (int_lt slot i) [
    | false ↦ ok t
    | true ↦ do t' ← copy_record t p (i +ℤ negsuc 0) i; shift_up fuel t' p slot (i +ℤ negsuc 0)
  ]

  unfoldable pub insert : ℕ → Transaction → BTreePage → ℤ → Result Transaction
  insert fuel t p slot = do
    (t1, n) ← get_num_recs t p
    t2 ← shift_up fuel t1 p slot n
    (t3, m) ← get_num_recs t2 p
    set_num_recs t3 p (m +ℤ pos 1)

  -- The loop of `remove`: the records after `slot` go one down.
  unfoldable pub shift_down : ℕ → Transaction → BTreePage → ℤ → Result Transaction
  shift_down zero t p i = err starved
  shift_down (suc fuel) t p i = do
    (t1, n) ← get_num_recs t p
    elim (int_lt i n) [
      | false ↦ ok t1
      | true ↦ do t2 ← copy_record t1 p i (i +ℤ negsuc 0); shift_down fuel t2 p (i +ℤ pos 1)
    ]

  unfoldable pub remove : ℕ → Transaction → BTreePage → ℤ → Result Transaction
  remove fuel t p slot = do
    t1 ← shift_down fuel t p (slot +ℤ pos 1)
    (t2, n) ← get_num_recs t1 p
    set_num_recs t2 p (n +ℤ negsuc 0)

  abbrev pub get_child_num : Transaction → BTreePage → ℤ → Result (Transaction × ℤ)
  get_child_num t p slot = get_int t p slot block_field

  unfoldable pub insert_dir : ℕ → Transaction → BTreePage → ℤ → Constant → ℤ → Result Transaction
  insert_dir fuel t p slot val blknum = do
    t1 ← insert fuel t p slot
    t2 ← set_value t1 p slot data_val val
    set_int t2 p slot block_field blknum

  unfoldable pub get_data_rid : Transaction → BTreePage → ℤ → Result (Transaction × Rid)
  get_data_rid t p slot = do
    (t1, block) ← get_int t p slot block_field
    (t2, id) ← get_int t1 p slot id_field
    ok (t2, record { block_number = block; slot = id })

  unfoldable pub insert_leaf : ℕ → Transaction → BTreePage → ℤ → Constant → Rid → Result Transaction
  insert_leaf fuel t p slot val rid = do
    t1 ← insert fuel t p slot
    t2 ← set_value t1 p slot data_val val
    t3 ← set_int t2 p slot block_field rid.block_number
    set_int t3 p slot id_field rid.slot

  -- `makeDefaultRecord`: any field that is not an integer is written as a string.
  unfoldable pub default_fields :
      Transaction → BTreePage → BlockId → ℤ → List Str → Result Transaction
  default_fields t p blk at [] = ok t
  default_fields t p blk at (name ∷ names) = do
    offset ← Layout.offset p.layout name
    type ← field_type p.layout.schema name
    t' ←
        if nat_beq type integer
        then Transaction.set_int env t blk (at +ℤ pos offset) (pos 0) false
        else Transaction.set_string env t blk (at +ℤ pos offset) [] false
    default_fields t' p blk at names

  -- The loop of `format`.
  unfoldable pub format_from : ℕ → Transaction → BTreePage → BlockId → ℤ → Result Transaction
  format_from zero t p blk at = err starved
  format_from (suc fuel) t p blk at =
      elim (int_lt (pos (block_size t)) (at +ℤ pos p.layout.slot_size)) [
        | true ↦ ok t
        | false ↦ do
          t' ← default_fields t p blk at p.layout.schema.fields
          format_from fuel t' p blk (at +ℤ pos p.layout.slot_size)
      ]

  unfoldable pub format : ℕ → Transaction → BTreePage → BlockId → ℤ → Result Transaction
  format fuel t p blk flag = do
    t1 ← Transaction.set_int env t blk (pos 0) flag false
    t2 ← Transaction.set_int env t1 blk (pos 4) (pos 0) false
    format_from fuel t2 p blk (pos 8)

  -- `appendNew`: the new block stays pinned.
  unfoldable pub append_new : ℕ → Transaction → BTreePage → ℤ → Result (Transaction × BlockId)
  append_new fuel t p flag = do
    (t1, blk) ← append_block env t p.blk.file_name
    t2 ← Transaction.pin env t1 blk
    t3 ← format fuel t2 p blk flag
    ok (t3, blk)

  -- A record of one page goes to a slot of another, field by field.
  unfoldable pub move_fields :
      Transaction → BTreePage → ℤ → BTreePage → ℤ → List Str → Result Transaction
  move_fields t p slot dest dest_slot [] = ok t
  move_fields t p slot dest dest_slot (name ∷ names) = do
    (t1, val) ← get_value t p slot name
    t2 ← set_value t1 dest dest_slot name val
    move_fields t2 p slot dest dest_slot names

  -- The loop of `transferRecs`.
  unfoldable pub transfer_recs :
      ℕ → Transaction → BTreePage → ℤ → BTreePage → ℤ → Result Transaction
  transfer_recs zero t p slot dest dest_slot = err starved
  transfer_recs (suc fuel) t p slot dest dest_slot = do
    (t1, n) ← get_num_recs t p
    elim (int_lt slot n) [
      | false ↦ ok t1
      | true ↦ do
        t2 ← insert fuel t1 dest dest_slot
        t3 ← move_fields t2 p slot dest dest_slot p.layout.schema.fields
        t4 ← remove fuel t3 p slot
        transfer_recs fuel t4 p slot dest (dest_slot +ℤ pos 1)
    ]

  unfoldable pub split : ℕ → Transaction → BTreePage → ℤ → ℤ → Result (Transaction × BlockId)
  split fuel t p split_pos flag = do
    (t1, new_blk) ← append_new fuel t p flag
    (t2, new_page) ← new_btree_page t1 new_blk p.layout
    t3 ← transfer_recs fuel t2 p split_pos new_page (pos 0)
    t4 ← set_flag t3 new_page flag
    (t5, closed) ← close t4 new_page
    ok (t5, new_blk)
