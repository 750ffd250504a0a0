-- ===== src/Indexing/BTreeIndex.antt =====
-- indexing/BTreeIndex.cpp: an index as a B-tree, with its leaves in one file and its directory in
-- another.
use sample_db.Base.{
  ℕ, [], ◌++◌, Bool, true, false, Option, none, some, Str, codes, ℤ, pos, negsuc, Result, ok, fault,
  ◌>>=◌, of_option, if◌then◌else◌, nat_beq,
}
use sample_db.File.BlockId.{BlockId}
use sample_db.Tx.Transaction.{Transaction, Waits, append_block}
use sample_db.Tx.Transaction
use sample_db.Record.Schema.{Schema, empty_schema, add, field_type, integer}
use sample_db.Record.Layout.{Layout, new_layout}
use sample_db.Scan.Constant.{Constant, int_constant, string_constant}
use sample_db.Scan.Interface.{Rid}
use sample_db.Indexing.BTreePage.{new_btree_page, format, insert_dir, data_val, block_field}
use sample_db.Indexing.BTreePage
use sample_db.Indexing.BTreeLeaf.{BTreeLeaf, DirEntry, is_null, new_btree_leaf}
use sample_db.Indexing.BTreeLeaf
use sample_db.Indexing.BTreeDir.{BTreeDir, new_btree_dir, search, make_new_root}
use sample_db.Indexing.BTreeDir

-- The leaf is null until `beforeFirst`.
pub record BTreeIndex : Type 0 where
  pub leaf_table : Str
  pub leaf_layout : Layout
  pub dir_layout : Layout
  pub root_blk : BlockId
  pub leaf : Option BTreeLeaf

-- `INT_MIN`.
abbrev pub int_min : ℤ
int_min = negsuc 2_147_483_647

module _ (env : Transaction → Waits) (fuel : ℕ) where
  -- The constructor's first part: a file without blocks gets an empty leaf, which stays pinned.
  unfoldable pub make_leaves : Transaction → Str → Layout → Result Transaction
  make_leaves t table layout = do
    (t1, n) ← Transaction.size env t table
    elim (nat_beq n 0) [
      | false ↦ ok t1
      | true ↦ do
        (t2, blk) ← append_block env t1 table
        (t3, node) ← new_btree_page env t2 blk layout
        format env fuel t3 node blk (negsuc 0)
    ]

  -- The least value of a type, which stands in the first entry.
  abbrev pub min_val : ℕ → Constant
  min_val type = if nat_beq type integer then int_constant int_min else string_constant []

  -- The second part: a directory without blocks gets a root with one entry, for leaf 0.
  unfoldable pub make_root : Transaction → Str → BlockId → Schema → Layout → Result Transaction
  make_root t table root schema layout = do
    (t1, n) ← Transaction.size env t table
    elim (nat_beq n 0) [
      | false ↦ ok t1
      | true ↦ do
        (t2, blk) ← append_block env t1 table
        (t3, node) ← new_btree_page env t2 root layout
        t4 ← format env fuel t3 node root (pos 0)
        type ← field_type schema data_val
        t5 ← insert_dir env fuel t4 node (pos 0) (min_val type) (pos 0)
        (t6, closed) ← BTreePage.close t5 node
        ok t6
    ]

  -- The constructor.
  unfoldable pub new_btree_index : Transaction → Str → Layout → Result (Transaction × BTreeIndex)
  new_btree_index t name leaf_layout = do
    let leaf_table : Str = name ++ codes "leaf"
    let dir_table : Str = name ++ codes "dir"
    let root : BlockId = record { file_name = dir_table; number = pos 0 }
    t1 ← make_leaves t leaf_table leaf_layout
    s ← add empty_schema block_field leaf_layout.schema
    schema ← add s data_val leaf_layout.schema
    dir_layout ← new_layout schema
    t2 ← make_root t1 dir_table root schema dir_layout
    ok (
      t2,
      record {
        leaf_table = leaf_table;
        leaf_layout = leaf_layout;
        dir_layout = dir_layout;
        root_blk = root;
        leaf = none;
      },
    )

  unfoldable pub close : Transaction → BTreeIndex → Result (Transaction × BTreeIndex)
  close t x = elim x.leaf [
    | none ↦ ok (t, x)
    | some l ↦ do (t', l') ← BTreeLeaf.close env fuel t l; ok (t', record x { leaf = some l' })
  ]

  -- `beforeFirst`: to the leaf of a key.
  unfoldable pub before_first :
      Transaction → BTreeIndex → Constant → Result (Transaction × BTreeIndex)
  before_first t x key = do
    (t1, x1) ← close t x
    (t2, root) ← new_btree_dir env fuel t1 x1.root_blk x1.dir_layout
    ((t3, root'), num) ← search env fuel t2 root key
    (t4, closed) ← BTreeDir.close env fuel t3 root'
    (t5, l) ←
        new_btree_leaf env fuel t4 (record { file_name = x1.leaf_table; number = num })
          x1.leaf_layout key
    ok (t5, record x1 { leaf = some l })

  unfoldable pub next : Transaction → BTreeIndex → Result ((Transaction × BTreeIndex) × Bool)
  next t x = do
    l ← of_option x.leaf fault
    ((t', l'), more) ← BTreeLeaf.next env fuel t l
    ok ((t', record x { leaf = some l' }), more)

  unfoldable pub get_data_rid : Transaction → BTreeIndex → Result (Transaction × Rid)
  get_data_rid t x = do l ← of_option x.leaf fault; BTreeLeaf.get_data_rid env fuel t l

  -- The entry of a leaf that was split goes to the directory, and that of the root to a new root.
  unfoldable pub insert_into_dir : Transaction → BTreeIndex → DirEntry → Result Transaction
  insert_into_dir t x entry = do
    (t1, root) ← new_btree_dir env fuel t x.root_blk x.dir_layout
    (t2, new_entry) ← BTreeDir.insert env fuel fuel t1 root entry
    t3 ← if is_null new_entry then ok t2 else make_new_root env fuel t2 root new_entry
    (t4, closed) ← BTreeDir.close env fuel t3 root
    ok t4

  unfoldable pub insert :
      Transaction → BTreeIndex → Constant → Rid → Result (Transaction × BTreeIndex)
  insert t x val rid = do
    (t1, x1) ← before_first t x val
    l ← of_option x1.leaf fault
    ((t2, l2), entry) ← BTreeLeaf.insert env fuel t1 l rid
    (t3, l3) ← BTreeLeaf.close env fuel t2 l2
    let x3 : BTreeIndex = record x1 { leaf = some l3 }
    t4 ← if is_null entry then ok t3 else insert_into_dir t3 x3 entry
    ok (t4, x3)

  unfoldable pub remove :
      Transaction → BTreeIndex → Constant → Rid → Result (Transaction × BTreeIndex)
  remove t x val rid = do
    (t1, x1) ← before_first t x val
    l ← of_option x1.leaf fault
    (t2, l2) ← BTreeLeaf.remove env fuel fuel t1 l rid
    (t3, l3) ← BTreeLeaf.close env fuel t2 l2
    ok (t3, record x1 { leaf = some l3 })
