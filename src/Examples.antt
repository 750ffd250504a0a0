-- ===== src/Examples.antt =====
-- The theorems at small inputs.
mod Storage
mod Pools
mod Locks
mod Queries
mod Parsing
mod Scans
mod Recovery
mod Operators
mod Plans
mod Runs
