-- ===== src/Plan.antt =====
-- plan/ and the plans of materialize/: how a query is run, and what it is estimated to cost.
pub mod Tree
pub mod QueryPlanner
pub mod UpdatePlanner
pub mod Planner
