-- ===== src/Indexing/BTreeLeaf.antt =====
-- indexing/BTreeLeaf.cpp and DirEntry.cpp: the records of one key in the leaves of a B-tree. When
-- all records of a leaf have the same key, its flag is the number of an overflow block.
use sample_db.Base.{
  ℕ, zero, suc, ◌/◌, Bool, true, false, not, ◌||◌, Str, ℤ, pos, negsuc, ◌+ℤ◌, int_lt, int_eq,
  Result, ok, err, starved, ◌>>=◌,
}
use sample_db.File.BlockId.{BlockId}
use sample_db.Tx.Transaction.{Transaction, Waits}
use sample_db.Record.Layout.{Layout}
use sample_db.Scan.Constant.{Constant, null_constant, constant_eq, constant_gt, assign}
use sample_db.Scan.Constant
use sample_db.Scan.Interface.{Rid, rid_beq}
use sample_db.Indexing.BTreePage.{
  BTreePage, new_btree_page, find_slot_before, get_data_val, get_num_recs, get_flag, set_flag,
  split, insert_leaf, is_full,
}
use sample_db.Indexing.BTreePage

-- A value and the block that holds the records from it on.
pub record DirEntry : Type 0 where
  pub data_val : Constant
  pub block_num : ℤ

-- `DirEntry()`; the block number is not read.
abbrev pub null_entry : DirEntry
null_entry = record { data_val = null_constant; block_num = pos 0 }

abbrev pub is_null : DirEntry → Bool
is_null e = Constant.is_null e.data_val

pub record BTreeLeaf : Type 0 where
  pub contents : BTreePage
  pub key : Constant
  pub current_slot : ℤ
  pub file_name : Str
  pub layout : Layout

-- Half of a number, as the `/ 2` of C++ on numbers that are not negative.
abbrev pub half : ℤ → ℤ
half (pos n) = pos (n / 2)
half (negsuc n) = negsuc n

module _ (env : Transaction → Waits) (fuel : ℕ) where
  -- The constructor.
  unfoldable pub new_btree_leaf :
      Transaction → BlockId → Layout → Constant → Result (Transaction × BTreeLeaf)
  new_btree_leaf t blk layout key = do
    (t1, page) ← new_btree_page env t blk layout
    (t2, slot) ← find_slot_before env fuel t1 page key
    ok (
      t2,
      record {
        contents = page;
        key = key;
        current_slot = slot;
        file_name = blk.file_name;
        layout = layout;
      },
    )

  unfoldable pub close : Transaction → BTreeLeaf → Result (Transaction × BTreeLeaf)
  close t l = do (t', page) ← BTreePage.close t l.contents; ok (t', record l { contents = page })

  -- `tryOverflow`: to the overflow block, if the key is the one of the leaf and there is one.
  unfoldable pub try_overflow : Transaction → BTreeLeaf → Result ((Transaction × BTreeLeaf) × Bool)
  try_overflow t l = do
    (t1, first_key) ← get_data_val env t l.contents (pos 0)
    (t2, flag) ← get_flag env t1 l.contents
    same ← constant_eq l.key first_key
    elim (not same || int_lt flag (pos 0)) [
      | true ↦ ok ((t2, l), false)
      | false ↦ do
        (t3, closed) ← BTreePage.close t2 l.contents
        (t4, page) ←
            new_btree_page env t3 (record { file_name = l.file_name; number = flag }) l.layout
        ok ((t4, record l { contents = page; current_slot = pos 0 }), true)
    ]

  unfoldable pub next : Transaction → BTreeLeaf → Result ((Transaction × BTreeLeaf) × Bool)
  next t l = do
    let l' : BTreeLeaf = record l { current_slot = l.current_slot +ℤ pos 1 }
    (t1, n) ← get_num_recs env t l'.contents
    elim (int_lt l'.current_slot n) [
      | false ↦ try_overflow t1 l'
      | true ↦ do
        (t2, val) ← get_data_val env t1 l'.contents l'.current_slot
        same ← constant_eq val l'.key
        elim same [ true ↦ ok ((t2, l'), true) | false ↦ try_overflow t2 l' ]
    ]

  abbrev pub get_data_rid : Transaction → BTreeLeaf → Result (Transaction × Rid)
  get_data_rid t l = BTreePage.get_data_rid env t l.contents l.current_slot

  -- `remove`, with fuel for the records of the key.
  unfoldable pub remove : ℕ → Transaction → BTreeLeaf → Rid → Result (Transaction × BTreeLeaf)
  remove zero t l rid = err starved
  remove (suc n) t l rid = do
    ((t1, l1), more) ← next t l
    elim more [
      | false ↦ ok (t1, l1)
      | true ↦ do
        (t2, found) ← get_data_rid t1 l1
        elim (rid_beq found rid) [
          | false ↦ remove n t2 l1 rid
          | true ↦ do t3 ← BTreePage.remove env fuel t2 l1.contents l1.current_slot; ok (t3, l1)
        ]
    ]

  -- `splitPos++` while the value there is the split key.
  unfoldable pub move_right : ℕ → Transaction → BTreePage → Constant → ℤ → Result (Transaction × ℤ)
  move_right zero t p key at = err starved
  move_right (suc n) t p key at = do
    (t', val) ← get_data_val env t p at
    same ← constant_eq val key
    elim same [ true ↦ move_right n t' p key (at +ℤ pos 1) | false ↦ ok (t', at) ]

  -- `splitPos--` while the value before it is the split key.
  unfoldable pub move_left : ℕ → Transaction → BTreePage → Constant → ℤ → Result (Transaction × ℤ)
  move_left zero t p key at = err starved
  move_left (suc n) t p key at = do
    (t', val) ← get_data_val env t p (at +ℤ negsuc 0)
    same ← constant_eq val key
    elim same [ true ↦ move_left n t' p key (at +ℤ negsuc 0) | false ↦ ok (t', at) ]

  -- Where a leaf with more than one key is split, and the key there: never within a key.
  unfoldable pub split_place :
      Transaction → BTreePage → Constant → ℤ → Result (Transaction × ℤ × Constant)
  split_place t p first_key at = do
    (t1, split_key) ← get_data_val env t p at
    same ← constant_eq split_key first_key
    elim same [
      | true ↦ do
        (t2, at') ← move_right fuel t1 p split_key at
        (t3, val) ← get_data_val env t2 p at'
        ok (t3, at', assign split_key val)
      | false ↦ do (t2, at') ← move_left fuel t1 p split_key at; ok (t2, at', split_key)
    ]

  -- A full leaf: an overflow block if it has one key, and otherwise a split between two keys.
  unfoldable pub split_full :
      Transaction → BTreeLeaf → Result ((Transaction × BTreeLeaf) × DirEntry)
  split_full t l = do
    (t1, first_key) ← get_data_val env t l.contents (pos 0)
    (t2, n) ← get_num_recs env t1 l.contents
    (t3, last_key) ← get_data_val env t2 l.contents (n +ℤ negsuc 0)
    one_key ← constant_eq last_key first_key
    elim one_key [
      | true ↦ do
        (t4, flag) ← get_flag env t3 l.contents
        (t5, new_blk) ← split env fuel t4 l.contents (pos 1) flag
        t6 ← set_flag env t5 l.contents new_blk.number
        ok ((t6, l), null_entry)
      | false ↦ do
        (t4, m) ← get_num_recs env t3 l.contents
        (t5, at, split_key) ← split_place t4 l.contents first_key (half m)
        (t6, new_blk) ← split env fuel t5 l.contents at (negsuc 0)
        ok ((t6, l), record { data_val = split_key; block_num = new_blk.number })
    ]

  -- `insert` behind the current slot.
  unfoldable pub insert_here :
      Transaction → BTreeLeaf → Rid → Result ((Transaction × BTreeLeaf) × DirEntry)
  insert_here t l rid = do
    let l' : BTreeLeaf = record l { current_slot = l.current_slot +ℤ pos 1 }
    t1 ← insert_leaf env fuel t l'.contents l'.current_slot l'.key rid
    (t2, full) ← is_full env t1 l'.contents
    elim full [ false ↦ ok ((t2, l'), null_entry) | true ↦ split_full t2 l' ]

  -- `insert` into a leaf with an overflow block, before its only key: all its records go to a new
  -- block.
  unfoldable pub insert_before :
      Transaction → BTreeLeaf → Rid → Result ((Transaction × BTreeLeaf) × DirEntry)
  insert_before t l rid = do
    (t1, first_val) ← get_data_val env t l.contents (pos 0)
    (t2, flag) ← get_flag env t1 l.contents
    (t3, new_blk) ← split env fuel t2 l.contents (pos 0) flag
    let l' : BTreeLeaf = record l { current_slot = pos 0 }
    t4 ← set_flag env t3 l'.contents (negsuc 0)
    t5 ← insert_leaf env fuel t4 l'.contents l'.current_slot l'.key rid
    ok ((t5, l'), record { data_val = first_val; block_num = new_blk.number })

  unfoldable pub insert :
      Transaction → BTreeLeaf → Rid → Result ((Transaction × BTreeLeaf) × DirEntry)
  insert t l rid = do
    (t1, flag) ← get_flag env t l.contents
    elim (int_lt flag (pos 0)) [
      | true ↦ insert_here t1 l rid
      | false ↦ do
        (t2, first_val) ← get_data_val env t1 l.contents (pos 0)
        greater ← constant_gt first_val l.key
        elim greater [ true ↦ insert_before t2 l rid | false ↦ insert_here t2 l rid ]
    ]
