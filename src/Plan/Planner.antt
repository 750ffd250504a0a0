-- ===== src/Plan/Planner.antt =====
-- plan/Planner.cpp: from the tokens of a statement to a plan or to an update. The query is also
-- printed, which is left out.
use sample_db.Base.{ℕ, Str, List, Result, ◌>>=◌}
use sample_db.Parse.StreamTokenizer.{Tokens}
use sample_db.Parse.Parser.Statements.{query, update_cmd}
use sample_db.Materialize.AggregationFn.{AggregationFn}
use sample_db.Plan.Tree.{Plan}
use sample_db.Plan.QueryPlanner.{Catalog, create_plan}
use sample_db.Plan.UpdatePlanner.{UpdatePlanner, execute_update}

module _ (to_lower : Str → Str) (fuel : ℕ) where
  -- `createQueryPlan`: tokens after the query are not looked at.
  unfoldable pub create_query_plan : Catalog → Tokens → Result (Plan × List AggregationFn)
  create_query_plan catalog ts = do (q, _) ← query to_lower fuel ts; create_plan catalog fuel q

  -- `executeUpdate`.
  unfoldable pub run_update : {W : Type 0} → UpdatePlanner W → Tokens → W → Result (W × ℕ)
  run_update planner ts w = do
    (command, _) ← update_cmd to_lower fuel ts
    execute_update planner command w
