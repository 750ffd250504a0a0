-- ===== src/Parse/Parser/Update.antt =====
-- What becomes of an UPDATE command: the parser stops at the new value.
use sample_db.Base.{ℕ, ◌≡◌, refl, ◌∷◌, [], Str, false, ok, codes}
use sample_db.Scan.Predicate.{field_expression}
use sample_db.Parse.Word
use sample_db.Parse.StreamTokenizer.{Tokens, all_chars}
use sample_db.Parse.Lexer.{◌>>=◌, if_next, match_keyword, eat_keyword}
use sample_db.Parse.Data.{modify_data}
use sample_db.Parse.Parser.{where_clause}
use sample_db.Parse.Parser.Statements.{modify}
use sample_db.Parse.Parser.Atoms.{KeepsLower, IsName}
use sample_db.Parse.Parser.Words.{eat_identifier-name, eat_keyword-word, eat_delimiter-equal}

module _ (to_lower : Str → Str) (keeps : KeepsLower to_lower) where
  update-word : (r : Tokens) → eat_keyword to_lower Word.update (Word.update ∷ r) ≡ ok (tt, r)
  unfolding all_chars
  update-word r = (eat_keyword-word to_lower keeps Word.update r refl refl refl).1

  set-word : (r : Tokens) → eat_keyword to_lower Word.set_word (Word.set_word ∷ r) ≡ ok (tt, r)
  unfolding all_chars
  set-word r = (eat_keyword-word to_lower keeps Word.set_word r refl refl refl).1

  -- `update table set field = value ...` is parsed into a change of the field to the empty field
  -- name in every row, and the value and all that follows it, a condition too, is left unread.
  -- The value is any token but the word `where`.
  pub modify-ignores_value :
      (table field value : Str) (rest : Tokens) (n : ℕ)
      → IsName table
      → IsName field
      → match_keyword to_lower Word.where_word (value ∷ rest) ≡ false
      → modify to_lower n (Word.update ∷ table ∷ Word.set_word ∷ field ∷ codes "=" ∷ value ∷ rest)
        ≡ ok (modify_data table field (field_expression []) [], value ∷ rest)
  unfolding modify where_clause
  modify-ignores_value table field value rest n t f none =
      rw
        (
          ◌>>=◌,
          if_next,
          update-word (table ∷ Word.set_word ∷ field ∷ codes "=" ∷ value ∷ rest),
          eat_identifier-name to_lower keeps table
              (Word.set_word ∷ field ∷ codes "=" ∷ value ∷ rest) t,
          set-word (field ∷ codes "=" ∷ value ∷ rest),
          eat_identifier-name to_lower keeps field (codes "=" ∷ value ∷ rest) f,
          eat_delimiter-equal to_lower keeps (value ∷ rest),
          none,
        )
        refl
