-- ===== src/Parse/Parser/Fields.antt =====
-- Field definitions: the list ends, on more fuel than there are tokens.
use sample_db.Base.{
  ℕ, zero, suc, ◌<◌, refl, Str, Result, ok, err, fault, thrown, starved, length, arith, Runs,
}
use sample_db.Record.Schema.{Schema, empty_schema, add_string_field, add_all}
use sample_db.Record.Schema.Adds.{add_names-Runs}
use sample_db.Parse.Word
use sample_db.Parse.StreamTokenizer.{Tokens}
use sample_db.Parse.Lexer.{
  pure, ◌>>=◌, ◌>>◌, match_delimiter, match_keyword, eat_delimiter, eat_integer, eat_keyword,
  eat_identifier,
}
use sample_db.Parse.Parser.Schemas.{field_definition, field_definition_list, lift}
use sample_db.Parse.Parser.Schemas
use sample_db.Parse.Parser.Fuel.{
  Under, Eats, Under-step, Under-cond, Under-weaken, eat_delimiter-Eats, eat_keyword-Eats,
  eat_identifier-Eats, eat_integer-Eats,
}

module _ (to_lower : Str → Str) where
  varchar-Eats :
      (name : Str)
      → Eats (do
        eat_keyword to_lower Word.varchar
        eat_delimiter to_lower Word.left_paren
        n ← eat_integer to_lower
        eat_delimiter to_lower Word.right_paren
        pure (add_string_field empty_schema name n))
  varchar-Eats name ts =
      Under-step _ (length ts) _ (eat_keyword to_lower Word.varchar ts)
        (eat_keyword-Eats to_lower Word.varchar ts)
        λ u1 r1 h1.
          Under-step _ (length r1) _ (eat_delimiter to_lower Word.left_paren r1)
            (eat_delimiter-Eats to_lower Word.left_paren refl r1)
            λ u2 r2 h2.
              Under-step _ (length r2) _ (eat_integer to_lower r2) (eat_integer-Eats to_lower r2)
                λ u3 r3 h3.
                  Under-step _ (length r3) _ (eat_delimiter to_lower Word.right_paren r3)
                    (eat_delimiter-Eats to_lower Word.right_paren refl r3) λ u4 r4 h4. omega arith

  field_type-Eats : (name : Str) → Eats (Schemas.field_type to_lower name)
  unfolding Schemas.field_type
  field_type-Eats name ts =
      Under-cond _ (match_keyword to_lower Word.int ts) _ _
        (Under-step _ (length ts) _ (eat_keyword to_lower Word.int ts)
          (eat_keyword-Eats to_lower Word.int ts) (λ a rest h. h))
        (Under-cond _ (match_keyword to_lower Word.bool ts) _ _
          (Under-step _ (length ts) _ (eat_keyword to_lower Word.bool ts)
            (eat_keyword-Eats to_lower Word.bool ts) (λ a rest h. h))
          (varchar-Eats name ts))

  field_definition-Eats : Eats (field_definition to_lower)
  unfolding field_definition
  field_definition-Eats ts =
      Under-step _ (length ts) _ (eat_identifier to_lower ts) (eat_identifier-Eats to_lower ts)
        λ name r1 h1. Under-weaken (length r1) _ _ (omega arith) (field_type-Eats name r1)

  lift-Under :
      (r : Result Schema) (k : ℕ) (ts : Tokens) → Runs r → length ts < k → Under k (lift r ts)
  lift-Under (ok s) k ts h g = g
  lift-Under (err fault) k ts h g = tt
  lift-Under (err thrown) k ts h g = tt
  lift-Under (err starved) k ts h g = h

  pub field_definition_list-Under :
      (n : ℕ) (ts : Tokens)
      → length ts < n
      → Under (length ts) (field_definition_list to_lower n ts)
  unfolding field_definition_list
  field_definition_list-Under zero ts h = absurd (omega arith)
  field_definition_list-Under (suc n) ts h =
      Under-step _ (length ts) _ (field_definition to_lower ts) (field_definition-Eats ts)
        λ s r1 h1.
          Under-cond _ (match_delimiter to_lower Word.comma r1) _ _
            (Under-step _ (length r1) _ (eat_delimiter to_lower Word.comma r1)
              (eat_delimiter-Eats to_lower Word.comma refl r1)
              λ u r2 h2.
                Under-step _ (length r2) _ (field_definition_list to_lower n r2)
                  (field_definition_list-Under n r2 (omega arith))
                  λ more r3 h3.
                    lift-Under (add_all s more) (length ts) r3 (add_names-Runs more.fields s more)
                      (omega arith))
            h1
