-- ===== src/Record/RecordPage.antt =====
-- record/RecordPage.cpp: a block as a row of slots. A slot begins with a flag, EMPTY or USED. The
-- loops over the slots have fuel.
pub mod Search
pub mod Insert
use sample_db.Base.{
  ℕ, zero, suc, ◌+◌, ◌*◌, List, [], ◌∷◌, Bool, true, false, not, ◌||◌, Str, ℤ, pos, negsuc, sub_ℕ,
  ◌+ℤ◌, int_lt, int_eq, ◌==◌, Result, ok, err, starved, ◌>>=◌, if◌then◌else◌, nat_beq,
}
use sample_db.File.BlockId.{BlockId}
use sample_db.Tx.Transaction.{Transaction, Waits, block_size}
use sample_db.Tx.Transaction
use sample_db.Record.Schema.{field_type, integer, boolean, varchar}
use sample_db.Record.Layout.{Layout}
use sample_db.Record.Layout

pub record RecordPage : Type 0 where
  pub blk : BlockId
  pub layout : Layout

abbrev pub empty_flag : ℤ
empty_flag = pos 0

abbrev pub used_flag : ℤ
used_flag = pos 1

-- `offset`: `slot * slotSize`.
abbrev pub slot_offset : Layout → ℤ → ℤ
slot_offset l (pos n) = pos (n * l.slot_size)
slot_offset l (negsuc n) = sub_ℕ 0 (suc n * l.slot_size)

abbrev pub is_valid_slot : Transaction → RecordPage → ℤ → Bool
is_valid_slot t rp slot = not (int_lt (pos (block_size t)) (slot_offset rp.layout (slot +ℤ pos 1)))

-- Where a field of a slot stands.
unfoldable pub field_pos : RecordPage → ℤ → Str → Result ℤ
field_pos rp slot name = do
  at ← Layout.offset rp.layout name
  ok (slot_offset rp.layout slot +ℤ pos at)

module _ (env : Transaction → Waits) where
  -- The constructor pins the block.
  unfoldable pub new_record_page :
      Transaction → BlockId → Layout → Result (Transaction × RecordPage)
  new_record_page t blk layout = do
    t' ← Transaction.pin env t blk
    ok (t', record { blk = blk; layout = layout })

  unfoldable pub get_int : Transaction → RecordPage → ℤ → Str → Result (Transaction × ℤ)
  get_int t rp slot name = do at ← field_pos rp slot name; Transaction.get_int env t rp.blk at

  unfoldable pub get_string : Transaction → RecordPage → ℤ → Str → Result (Transaction × Str)
  get_string t rp slot name = do at ← field_pos rp slot name; Transaction.get_string env t rp.blk at

  unfoldable pub set_int : Transaction → RecordPage → ℤ → Str → ℤ → Result Transaction
  set_int t rp slot name val = do
    at ← field_pos rp slot name
    Transaction.set_int env t rp.blk at val true

  unfoldable pub set_string : Transaction → RecordPage → ℤ → Str → Str → Result Transaction
  set_string t rp slot name val = do
    at ← field_pos rp slot name
    Transaction.set_string env t rp.blk at val true

  unfoldable pub set_flag : Transaction → RecordPage → ℤ → ℤ → Result Transaction
  set_flag t rp slot flag = Transaction.set_int env t rp.blk (slot_offset rp.layout slot) flag true

  abbrev pub remove : Transaction → RecordPage → ℤ → Result Transaction
  remove t rp slot = set_flag t rp slot empty_flag

  -- A field of a slot in `format`, by its type.
  unfoldable pub format_field : Transaction → RecordPage → ℤ → ℕ → Result Transaction
  format_field t rp at type =
      if nat_beq type integer || nat_beq type boolean
      then Transaction.set_int env t rp.blk at (pos 0) false
      else if nat_beq type varchar
      then Transaction.set_string env t rp.blk at [] false
      else ok t

  unfoldable pub format_fields : Transaction → RecordPage → ℤ → List Str → Result Transaction
  format_fields t rp slot [] = ok t
  format_fields t rp slot (name ∷ names) = do
    at ← field_pos rp slot name
    type ← field_type rp.layout.schema name
    t' ← format_field t rp at type
    format_fields t' rp slot names

  -- The loop of `format`: the flag is written with logging, the fields without.
  unfoldable pub format_from : ℕ → Transaction → RecordPage → ℤ → Result Transaction
  format_from zero t rp slot = err starved
  format_from (suc fuel) t rp slot = elim (is_valid_slot t rp slot) [
    | false ↦ ok t
    | true ↦ do
      t1 ← Transaction.set_int env t rp.blk (slot_offset rp.layout slot) empty_flag true
      t2 ← format_fields t1 rp slot rp.layout.schema.fields
      format_from fuel t2 rp (slot +ℤ pos 1)
  ]

  abbrev pub format : ℕ → Transaction → RecordPage → Result Transaction
  format fuel t rp = format_from fuel t rp (pos 0)

  -- The loop of `searchAfter`, from a slot on; -1 if no slot has the flag.
  unfoldable pub search_from : ℕ → Transaction → RecordPage → ℤ → ℤ → Result (Transaction × ℤ)
  search_from zero t rp slot flag = err starved
  search_from (suc fuel) t rp slot flag = elim (is_valid_slot t rp slot) [
    | false ↦ ok (t, negsuc 0)
    | true ↦ do
      (t', val) ← Transaction.get_int env t rp.blk (slot_offset rp.layout slot)
      elim (val == flag) [
        | true ↦ ok (t', slot)
        | false ↦ search_from fuel t' rp (slot +ℤ pos 1) flag
      ]
  ]

  abbrev pub search_after : ℕ → Transaction → RecordPage → ℤ → ℤ → Result (Transaction × ℤ)
  search_after fuel t rp slot flag = search_from fuel t rp (slot +ℤ pos 1) flag

  abbrev pub next_after : ℕ → Transaction → RecordPage → ℤ → Result (Transaction × ℤ)
  next_after fuel t rp slot = search_after fuel t rp slot used_flag

  -- `insertAfter` once the slot was searched for.
  unfoldable pub use_slot : Transaction → RecordPage → ℤ → Result (Transaction × ℤ)
  use_slot t rp (negsuc n) = ok (t, negsuc n)
  use_slot t rp (pos n) = do t' ← set_flag t rp (pos n) used_flag; ok (t', pos n)

  unfoldable pub insert_after : ℕ → Transaction → RecordPage → ℤ → Result (Transaction × ℤ)
  insert_after fuel t rp slot = do
    (t', new_slot) ← search_after fuel t rp slot empty_flag
    use_slot t' rp new_slot
