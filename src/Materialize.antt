-- ===== src/Materialize.antt =====
-- materialize/: operators that sort, group and join the rows of scans.
pub mod AggregationFn
pub mod RecordComparator
pub mod GroupByScan
pub mod SortScan
pub mod MergeJoinScan
pub mod SortPlan
