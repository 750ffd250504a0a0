-- ===== src/Record.antt =====
-- record/: schemas and record layouts.
pub mod Schema
pub mod Layout
pub mod RecordPage
pub mod TableScan
