-- ===== src/Scan.antt =====
-- scan/: constants, predicates over the row that a scan stands on, and the scans.
pub mod Constant
pub mod Predicate
pub mod Interface
pub mod SelectScan
pub mod ProjectScan
pub mod ProductScan
