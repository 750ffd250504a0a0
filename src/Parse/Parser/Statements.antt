-- ===== src/Parse/Parser/Statements.antt =====
-- parse/Parser.cpp: queries and the commands that change the database.
use sample_db.Base.{ℕ, zero, suc, [], Str, err, starved}
use sample_db.Scan.Predicate.{field_expression}
use sample_db.Parse.Word
use sample_db.Parse.Lexer.{
  Parse, pure, ◌>>=◌, ◌>>◌, if_next, match_delimiter, match_keyword, eat_delimiter, eat_keyword,
  eat_identifier,
}
use sample_db.Parse.Data.{
  QueryData, query_data, no_queries, TableData, add_table_name, add_query_data, Command,
  delete_data, insert_data, modify_data, create_table_data, create_view_data, create_index_data,
}
use sample_db.Parse.Parser.{
  field_name, select_list, field_list, constant_list, where_clause, group_field_list,
  sort_field_list,
}
use sample_db.Parse.Parser.Schemas.{field_definition_list}

module _ (to_lower : Str → Str) where
  -- A table, or a query in parentheses.
  unfoldable pub table_item : Parse QueryData → TableData → Parse TableData
  table_item query tables =
      if_next (match_delimiter to_lower Word.left_paren)
        (do
          eat_delimiter to_lower Word.left_paren
          q ← query
          eat_delimiter to_lower Word.right_paren
          pure (add_query_data q tables))
        (do name ← eat_identifier to_lower; pure (add_table_name name tables))

  -- The `while` loop of `tableList`.
  unfoldable pub more_tables : Parse QueryData → ℕ → TableData → Parse TableData
  more_tables query zero tables ts = err starved
  more_tables query (suc n) tables ts =
      if_next (match_delimiter to_lower Word.comma)
        (do
          eat_delimiter to_lower Word.comma
          tables' ← table_item query tables
          more_tables query n tables')
        (pure tables) ts

  unfoldable pub table_list : Parse QueryData → ℕ → Parse TableData
  table_list query n = do
    tables ← table_item query (record { table_names = []; query_list = no_queries })
    more_tables query n tables

  unfoldable pub query : ℕ → Parse QueryData
  query zero ts = err starved
  query (suc n) ts =
      (do
        eat_keyword to_lower Word.select
        fields ← select_list to_lower n
        eat_keyword to_lower Word.from
        tables ← table_list (query n) n
        pred ← where_clause to_lower n
        group_fields ← group_field_list to_lower n
        sort_fields ← sort_field_list to_lower n
        pure (query_data fields tables.table_names pred group_fields sort_fields tables.query_list))
        ts

  unfoldable pub remove : ℕ → Parse Command
  remove n = do
    eat_keyword to_lower Word.delete
    eat_keyword to_lower Word.from
    table ← eat_identifier to_lower
    pred ← where_clause to_lower n
    pure (delete_data table pred)

  unfoldable pub insert : ℕ → Parse Command
  insert n = do
    eat_keyword to_lower Word.insert
    eat_keyword to_lower Word.into
    table ← eat_identifier to_lower
    eat_delimiter to_lower Word.left_paren
    fields ← field_list to_lower n
    eat_delimiter to_lower Word.right_paren
    eat_keyword to_lower Word.values
    eat_delimiter to_lower Word.left_paren
    vals ← constant_list to_lower n
    eat_delimiter to_lower Word.right_paren
    pure (insert_data table fields vals)

  -- The new value is never read: it is an expression of neither a constant nor a field.
  unfoldable pub modify : ℕ → Parse Command
  modify n = do
    eat_keyword to_lower Word.update
    table ← eat_identifier to_lower
    eat_keyword to_lower Word.set_word
    field ← field_name to_lower
    eat_delimiter to_lower Word.equal_sign
    pred ← where_clause to_lower n
    pure (modify_data table field (field_expression []) pred)

  unfoldable pub create_table : ℕ → Parse Command
  create_table n = do
    eat_keyword to_lower Word.table
    name ← eat_identifier to_lower
    eat_delimiter to_lower Word.left_paren
    schema ← field_definition_list to_lower n
    eat_delimiter to_lower Word.right_paren
    pure (create_table_data name schema)

  unfoldable pub create_view : ℕ → Parse Command
  create_view n = do
    eat_keyword to_lower Word.view
    name ← eat_identifier to_lower
    eat_keyword to_lower Word.as_word
    q ← query n
    pure (create_view_data name q)

  unfoldable pub create_index : Parse Command
  create_index = do
    eat_keyword to_lower Word.index
    name ← eat_identifier to_lower
    eat_keyword to_lower Word.on
    table ← eat_identifier to_lower
    eat_delimiter to_lower Word.left_paren
    field ← field_name to_lower
    eat_delimiter to_lower Word.right_paren
    pure (create_index_data name table field)

  unfoldable pub create : ℕ → Parse Command
  create n = do
    eat_keyword to_lower Word.create
    if_next (match_keyword to_lower Word.table) (create_table n)
        (if_next (match_keyword to_lower Word.view) (create_view n) create_index)

  unfoldable pub update_cmd : ℕ → Parse Command
  update_cmd n = if_next (match_keyword to_lower Word.insert) (insert n) (
      if_next (match_keyword to_lower Word.delete) (remove n)
        (if_next (match_keyword to_lower Word.update) (modify n) (create n)))
