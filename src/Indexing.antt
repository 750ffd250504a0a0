-- ===== src/Indexing.antt =====
-- indexing/: a B-tree of index records in the blocks of two files.
pub mod BTreePage
pub mod BTreeLeaf
pub mod BTreeDir
pub mod BTreeIndex
