-- ===== src/Meta/MetaDataMgr.antt =====
-- meta/MetaDataMgr.cpp: the four managers of the catalog together.
use sample_db.Base.{ℕ, List, Bool, Str, Option, Result, ok, ◌>>=◌}
use sample_db.Tx.Transaction.{Transaction, Waits}
use sample_db.Record.Layout.{Layout}
use sample_db.Record.Schema.{Schema}
use sample_db.Meta.TableMgr.{TableMgr, StoredLayout, new_table_mgr}
use sample_db.Meta.TableMgr
use sample_db.Meta.ViewMgr
use sample_db.Meta.IndexMgr.{IndexInfo}
use sample_db.Meta.IndexMgr
use sample_db.Meta.StatMgr.{StatMgr, StatInfo, refresh_statistics}
use sample_db.Meta.StatMgr
use sample_db.Meta.ViewMgr.{new_view_mgr}
use sample_db.Meta.IndexMgr.{new_index_mgr}

pub record MetaDataMgr : Type 0 where
  pub table_mgr : TableMgr
  pub stat_mgr : StatMgr
  pub index_layout : Layout

module _ (env : Transaction → Waits) (fuel : ℕ) where
  -- The constructor: the tables, the views, the statistics and then the indexes.
  unfoldable pub new_meta_data_mgr : Bool → Transaction → Result (Transaction × MetaDataMgr)
  new_meta_data_mgr is_new t = do
    (t1, tm) ← new_table_mgr env fuel is_new t
    t2 ← new_view_mgr env fuel is_new tm t1
    (t3, sm) ← refresh_statistics env fuel tm t2
    (t4, layout) ← new_index_mgr env fuel is_new tm t3
    ok (t4, record { table_mgr = tm; stat_mgr = sm; index_layout = layout })

  -- `getStatInfo`: the statistics manager keeps what it counted.
  unfoldable pub get_stat_info :
      MetaDataMgr
      → Transaction
      → Str
      → Layout
      → Result ((Transaction × MetaDataMgr) × Option StatInfo)
  get_stat_info md t table layout = do
    ((t', sm), stats) ← StatMgr.get_stat_info env fuel md.table_mgr md.stat_mgr t table layout
    ok ((t', record md { stat_mgr = sm }), stats)

  -- The other calls are those of the managers.
  unfoldable pub create_table : MetaDataMgr → Transaction → Str → Schema → Result Transaction
  create_table md t table schema = TableMgr.create_table env fuel md.table_mgr t table schema

  unfoldable pub get_layout : MetaDataMgr → Transaction → Str → Result (Transaction × StoredLayout)
  get_layout md t table = TableMgr.get_layout env fuel md.table_mgr t table

  unfoldable pub create_view : MetaDataMgr → Transaction → Str → Str → Result Transaction
  create_view md t view vdef = ViewMgr.create_view env fuel md.table_mgr t view vdef

  unfoldable pub get_view_def : MetaDataMgr → Transaction → Str → Result (Transaction × Str)
  get_view_def md t view = ViewMgr.get_view_def env fuel md.table_mgr t view

  unfoldable pub create_index : MetaDataMgr → Transaction → Str → Str → Str → Result Transaction
  create_index md t index table field =
      IndexMgr.create_index env fuel md.index_layout t index table field

  unfoldable pub get_index_info :
      MetaDataMgr
      → Transaction
      → Str
      → Result ((Transaction × MetaDataMgr) × List (Str × IndexInfo))
  get_index_info md t table = do
    ((t', sm), infos) ←
        IndexMgr.get_index_info env fuel md.index_layout md.table_mgr md.stat_mgr t table
    ok ((t', record md { stat_mgr = sm }), infos)
