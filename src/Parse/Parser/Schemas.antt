-- ===== src/Parse/Parser/Schemas.antt =====
-- parse/Parser.cpp: the field definitions of CREATE TABLE.
use sample_db.Base.{ℕ, zero, suc, Str, Result, ok, err, starved}
use sample_db.Record.Schema.{
  Schema, empty_schema, add_int_field, add_bool_field, add_string_field, add_all,
}
use sample_db.Parse.Word
use sample_db.Parse.Lexer.{
  Parse, pure, ◌>>=◌, ◌>>◌, if_next, match_delimiter, match_keyword, eat_delimiter, eat_integer,
  eat_keyword,
}
use sample_db.Parse.Parser.{field_name}

-- A call that may throw, as a step that takes no token.
abbrev pub lift : {A : Type 0} → Result A → Parse A
lift r ts = elim r [ ok a ↦ ok (a, ts) | err e ↦ err e ]

module _ (to_lower : Str → Str) where
  unfoldable pub field_type : Str → Parse Schema
  field_type name =
      if_next (match_keyword to_lower Word.int)
        (do eat_keyword to_lower Word.int; pure (add_int_field empty_schema name))
        (if_next (match_keyword to_lower Word.bool)
          (do eat_keyword to_lower Word.bool; pure (add_bool_field empty_schema name))
          (do
            eat_keyword to_lower Word.varchar
            eat_delimiter to_lower Word.left_paren
            n ← eat_integer to_lower
            eat_delimiter to_lower Word.right_paren
            pure (add_string_field empty_schema name n)))

  unfoldable pub field_definition : Parse Schema
  field_definition = do name ← field_name to_lower; field_type name

  unfoldable pub field_definition_list : ℕ → Parse Schema
  field_definition_list zero ts = err starved
  field_definition_list (suc n) ts =
      (do
        schema ← field_definition
        if_next (match_delimiter to_lower Word.comma)
            (do
              eat_delimiter to_lower Word.comma
              next ← field_definition_list n
              lift (add_all schema next))
            (pure schema))
        ts
