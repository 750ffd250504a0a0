-- ===== src/Indexing/BTreeDir.antt =====
-- indexing/BTreeDir.cpp: the directory of a B-tree. The flag of a directory block is its level, 0
-- right above the leaves. The recursion and the loops have fuel.
use sample_db.Base.{
  ℕ, zero, suc, true, false, Str, ℤ, pos, ◌+ℤ◌, int_lt, int_eq, ◌==◌, Result, ok, err, starved,
  ◌>>=◌, if◌then◌else◌,
}
use sample_db.File.BlockId.{BlockId}
use sample_db.Tx.Transaction.{Transaction, Waits}
use sample_db.Record.Layout.{Layout}
use sample_db.Scan.Constant.{Constant, constant_eq}
use sample_db.Indexing.BTreePage.{
  BTreePage, new_btree_page, find_slot_before, get_data_val, get_num_recs, get_flag, set_flag,
  split, insert_dir, is_full, get_child_num,
}
use sample_db.Indexing.BTreePage
use sample_db.Indexing.BTreeLeaf.{DirEntry, null_entry, is_null, half}

pub record BTreeDir : Type 0 where
  pub contents : BTreePage
  pub file_name : Str
  pub layout : Layout

module _ (env : Transaction → Waits) (fuel : ℕ) where
  -- The constructor.
  unfoldable pub new_btree_dir : Transaction → BlockId → Layout → Result (Transaction × BTreeDir)
  new_btree_dir t blk layout = do
    (t', page) ← new_btree_page env t blk layout
    ok (t', record { contents = page; file_name = blk.file_name; layout = layout })

  unfoldable pub close : Transaction → BTreeDir → Result (Transaction × BTreeDir)
  close t d = do (t', page) ← BTreePage.close t d.contents; ok (t', record d { contents = page })

  -- `findChildBlock`: the child of the last entry that is not greater than the key.
  unfoldable pub find_child_block :
      Transaction → BTreeDir → Constant → Result (Transaction × BlockId)
  find_child_block t d key = do
    (t1, slot) ← find_slot_before env fuel t d.contents key
    (t2, val) ← get_data_val env t1 d.contents (slot +ℤ pos 1)
    same ← constant_eq val key
    (t3, num) ← get_child_num env t2 d.contents (if same then slot +ℤ pos 1 else slot)
    ok (t3, record { file_name = d.file_name; number = num })

  -- The loop of `search`: down to the level above the leaves.
  unfoldable pub descend :
      ℕ → Transaction → BTreeDir → Constant → BlockId → Result ((Transaction × BTreeDir) × BlockId)
  descend zero t d key child = err starved
  descend (suc n) t d key child = do
    (t1, flag) ← get_flag env t d.contents
    elim (int_lt (pos 0) flag) [
      | false ↦ ok ((t1, d), child)
      | true ↦ do
        (t2, closed) ← BTreePage.close t1 d.contents
        (t3, page) ← new_btree_page env t2 child d.layout
        let d' : BTreeDir = record d { contents = page }
        (t4, child') ← find_child_block t3 d' key
        descend n t4 d' key child'
    ]

  -- `search`: the number of the leaf's block.
  unfoldable pub search : Transaction → BTreeDir → Constant → Result ((Transaction × BTreeDir) × ℤ)
  search t d key = do
    (t1, child) ← find_child_block t d key
    (x, leaf) ← descend fuel t1 d key child
    ok (x, leaf.number)

  -- `insertEntry`: a full block is split in the middle, and the entry of its upper half comes back.
  unfoldable pub insert_entry : Transaction → BTreeDir → DirEntry → Result (Transaction × DirEntry)
  insert_entry t d entry = do
    (t1, before) ← find_slot_before env fuel t d.contents entry.data_val
    t2 ← insert_dir env fuel t1 d.contents (pos 1 +ℤ before) entry.data_val entry.block_num
    (t3, full) ← is_full env t2 d.contents
    elim full [
      | false ↦ ok (t3, null_entry)
      | true ↦ do
        (t4, level) ← get_flag env t3 d.contents
        (t5, n) ← get_num_recs env t4 d.contents
        (t6, split_val) ← get_data_val env t5 d.contents (half n)
        (t7, new_blk) ← split env fuel t6 d.contents (half n) level
        ok (t7, record { data_val = split_val; block_num = new_blk.number })
    ]

  -- `insert`: into the child first, and then what its split gives.
  unfoldable pub insert : ℕ → Transaction → BTreeDir → DirEntry → Result (Transaction × DirEntry)
  insert zero t d entry = err starved
  insert (suc n) t d entry = do
    (t1, flag) ← get_flag env t d.contents
    elim (flag == pos 0) [
      | true ↦ insert_entry t1 d entry
      | false ↦ do
        (t2, child_blk) ← find_child_block t1 d entry.data_val
        (t3, child) ← new_btree_dir t2 child_blk d.layout
        (t4, new_entry) ← insert n t3 child entry
        (t5, closed) ← close t4 child
        elim (is_null new_entry) [
          | true ↦ ok (t5, null_entry)
          | false ↦ insert_entry t5 d new_entry
        ]
    ]

  -- `makeNewRoot`: the old root's entries go to a new block, and the root gets two entries.
  unfoldable pub make_new_root : Transaction → BTreeDir → DirEntry → Result Transaction
  make_new_root t d entry = do
    (t1, first_val) ← get_data_val env t d.contents (pos 0)
    (t2, level) ← get_flag env t1 d.contents
    (t3, new_blk) ← split env fuel t2 d.contents (pos 0) level
    (t4, e1) ← insert_entry t3 d (record { data_val = first_val; block_num = new_blk.number })
    (t5, e2) ← insert_entry t4 d entry
    set_flag env t5 d.contents (level +ℤ pos 1)
