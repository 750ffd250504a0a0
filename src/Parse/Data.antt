-- ===== src/Parse/Data.antt =====
-- parse/QueryData, TableData, InsertData, DeleteData, ModifyData, CreateTableData, CreateViewData
-- and CreateIndexData: what the parser returns.
use sample_db.Base.{List, [], ◌∷◌, ◌++◌, Str, str_eq, if◌then◌else◌}
use sample_db.Scan.Constant.{Constant}
use sample_db.Scan.Predicate.{Predicate, Expression}
use sample_db.Record.Schema.{Schema}
use sample_db.Parse.Lexer.{is_in}

-- A query over tables and over queries that stand for tables.
mutual
  pub data QueryData : Type 0 where
    query_data : List Str → List Str → Predicate → List Str → List Str → Queries → QueryData

  pub data Queries : Type 0 where
    no_queries : Queries
    and_query : QueryData → Queries → Queries

-- The tables of a FROM list, and the queries between parentheses.
pub record TableData : Type 0 where
  pub table_names : List Str
  pub query_list : Queries

-- The names are a `std::set`: a name is held once.
unfoldable pub add_table_name : Str → TableData → TableData
unfolding is_in
add_table_name name t =
    if is_in name t.table_names then t else record t { table_names = t.table_names ++ name ∷ [] }

unfoldable pub append_query : Queries → QueryData → Queries
append_query no_queries q = and_query q no_queries
append_query (and_query p ps) q = and_query p (append_query ps q)

unfoldable pub add_query_data : QueryData → TableData → TableData
unfolding append_query
add_query_data q t = record t { query_list = append_query t.query_list q }

pub data Command : Type 0 where
  delete_data : Str → Predicate → Command
  insert_data : Str → List Str → List Constant → Command
  modify_data : Str → Str → Expression → Predicate → Command
  create_table_data : Str → Schema → Command
  create_view_data : Str → QueryData → Command
  create_index_data : Str → Str → Str → Command
