-- ===== src/Meta.antt =====
-- meta/: the catalog of tables, views and indexes, and the statistics of tables, in tables of their
-- own.
pub mod TableMgr
pub mod StatMgr
pub mod ViewMgr
pub mod IndexMgr
pub mod MetaDataMgr
