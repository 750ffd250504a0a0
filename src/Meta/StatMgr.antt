-- ===== src/Meta/StatMgr.antt =====
-- meta/StatMgr.cpp and StatInfo.cpp: the number of blocks and of records of each table.
use sample_db.Base.{
  ℕ, zero, suc, ◌+◌, ◌/◌, List, [], true, false, Option, none, some, Str, str_eq, pos, ◌+ℤ◌, Result,
  ok, err, starved, ◌>>=◌, find, put, ltb, if◌then◌else◌,
}
use sample_db.Logging.{to_offset}
use sample_db.Tx.Transaction.{Transaction, Waits}
use sample_db.Record.Layout.{Layout}
use sample_db.Record.TableScan.{TableScan, open_table, close, next_in, get_string, get_rid}
use sample_db.Meta.TableMgr.{TableMgr, table_layout, tblcat, tblname}

pub record StatInfo : Type 0 where
  pub num_blocks : ℕ
  pub num_records : ℕ

-- `distinctValues`, whatever the field.
abbrev pub stat_distinct_values : StatInfo → ℕ
stat_distinct_values i = 1 + i.num_records / 3

-- `none` is a default `StatInfo`, whose numbers are not set.
pub record StatMgr : Type 0 where
  pub table_stats : List (Str × Option StatInfo)
  pub num_calls : ℕ

abbrev pub stats_or : StatInfo → Option StatInfo → StatInfo
stats_or unset none = unset
stats_or unset (some i) = i

module _ (env : Transaction → Waits) (fuel : ℕ) where
  -- The loop of `calcTableStats`. A row stands in a block whose number is not negative.
  unfoldable pub count_records : ℕ → TableScan → StatInfo → Result (TableScan × StatInfo)
  count_records zero s i = err starved
  count_records (suc n) s i = do
    (s1, more) ← next_in env fuel fuel s
    elim more [
      | false ↦ ok (s1, i)
      | true ↦ do
        rid ← get_rid s1
        blocks ← to_offset (rid.block_number +ℤ pos 1)
        count_records n s1 (record { num_blocks = blocks; num_records = suc i.num_records })
    ]

  unfoldable pub calc_table_stats : Transaction → Str → Layout → Result (Transaction × StatInfo)
  calc_table_stats t table layout = do
    s ← open_table env fuel t table layout
    (s1, i) ← count_records fuel s (record { num_blocks = 0; num_records = 0 })
    s2 ← close s1
    ok (s2.tx, i)

  -- The loop of `refreshStatistics`: while the catalog is scanned, each table is.
  unfoldable pub refresh_tables :
      ℕ
      → TableMgr
      → TableScan
      → List (Str × Option StatInfo)
      → Result (TableScan × List (Str × Option StatInfo))
  refresh_tables zero tm s stats = err starved
  refresh_tables (suc n) tm s stats = do
    (s1, more) ← next_in env fuel fuel s
    elim more [
      | false ↦ ok (s1, stats)
      | true ↦ do
        (s2, table) ← get_string env fuel s1 tblname
        (t1, layout) ← table_layout env fuel tm s2.tx table
        (t2, i) ← calc_table_stats t1 table layout
        refresh_tables n tm (record s2 { tx = t2 }) (put table (some i) stats)
    ]

  unfoldable pub refresh_statistics : TableMgr → Transaction → Result (Transaction × StatMgr)
  refresh_statistics tm t = do
    (t1, layout) ← table_layout env fuel tm t tblcat
    s ← open_table env fuel t1 tblcat layout
    (s1, stats) ← refresh_tables fuel tm s []
    s2 ← close s1
    ok (s2.tx, record { table_stats = stats; num_calls = 0 })

  -- The end of `getStatInfo`: a table WITH statistics gets new ones, and one without them a default.
  unfoldable pub stat_info_found :
      StatMgr
      → Transaction
      → Str
      → Layout
      → Option (Option StatInfo)
      → Result ((Transaction × StatMgr) × Option StatInfo)
  stat_info_found m t table layout none =
      ok ((t, record m { table_stats = put table none m.table_stats }), none)
  stat_info_found m t table layout (some old) = do
    (t', i) ← calc_table_stats t table layout
    ok ((t', record m { table_stats = put table (some i) m.table_stats }), some i)

  unfoldable pub get_stat_info :
      TableMgr
      → StatMgr
      → Transaction
      → Str
      → Layout
      → Result ((Transaction × StatMgr) × Option StatInfo)
  get_stat_info tm m t table layout = do
    (t', m') ←
        if ltb 100 (suc m.num_calls)
        then refresh_statistics tm t
        else ok (t, record m { num_calls = suc m.num_calls })
    stat_info_found m' t' table layout (find table m'.table_stats)
