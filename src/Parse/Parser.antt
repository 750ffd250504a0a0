-- ===== src/Parse/Parser.antt =====
-- parse/Parser.cpp: predicates, lists and their parts. Each recursion takes fuel; the number of
-- tokens, plus one, is enough.
pub mod Statements
pub mod Update
pub mod Schemas
pub mod Atoms
pub mod Words
pub mod Printing
pub mod Fuel
pub mod Ends
pub mod Fields
pub mod Commands
use sample_db.Base.{
  ℕ, zero, suc, List, [], ◌∷◌, ◌++◌, Str, Bool, true, false, pos, Result, ok, err, starved, length,
}
use sample_db.Scan.Constant.{Constant, int_constant, string_constant}
use sample_db.Scan.Predicate.{
  Predicate, Expression, Term, constant_expression, field_expression, conjoin_with,
}
use sample_db.Parse.Word
use sample_db.Parse.StreamTokenizer.{Tokens}
use sample_db.Parse.Lexer.{
  Parse, pure, ◌>>=◌, ◌>>◌, if_next, match_delimiter, match_string, match_keyword, match_identifier,
  eat_delimiter, eat_integer, eat_string, eat_keyword, eat_identifier,
}

module _ (to_lower : Str → Str) where
  abbrev pub field_name : Parse Str
  field_name = eat_identifier to_lower

  -- `true` and `false` are the integers 1 and 0.
  unfoldable pub constant : Parse Constant
  constant =
      if_next (match_keyword to_lower Word.true_word)
        (do eat_keyword to_lower Word.true_word; pure (int_constant (pos 1)))
        (if_next (match_keyword to_lower Word.false_word)
          (do eat_keyword to_lower Word.false_word; pure (int_constant (pos 0)))
          (if_next (match_string to_lower) (do s ← eat_string to_lower; pure (string_constant s))
            (do n ← eat_integer to_lower; pure (int_constant (pos n)))))

  unfoldable pub expression : Parse Expression
  expression =
      if_next (match_identifier to_lower) (do name ← field_name; pure (field_expression name))
        (do c ← constant; pure (constant_expression c))

  unfoldable pub term : Parse Term
  term = do
    lhs ← expression
    eat_delimiter to_lower Word.equal_sign
    rhs ← expression
    pure (record { lhs = lhs; rhs = rhs })

  unfoldable pub predicate : ℕ → Parse Predicate
  predicate zero ts = err starved
  predicate (suc n) ts =
      (do
        t ← term
        if_next (match_keyword to_lower Word.ampersand)
            (do
              eat_keyword to_lower Word.ampersand
              more ← predicate n
              pure (conjoin_with (t ∷ []) more))
            (pure (t ∷ [])))
        ts

  -- The shape of `selectList`, `fieldList` and `constantList`.
  unfoldable pub separated_list : {A : Type 0} → Parse A → ℕ → Parse (List A)
  separated_list item zero ts = err starved
  separated_list item (suc n) ts =
      (do
        first ← item
        if_next (match_delimiter to_lower Word.comma)
            (do
              eat_delimiter to_lower Word.comma
              more ← separated_list item n
              pure (first ∷ more))
            (pure (first ∷ [])))
        ts

  abbrev pub select_list : ℕ → Parse (List Str)
  select_list = separated_list field_name

  abbrev pub field_list : ℕ → Parse (List Str)
  field_list = separated_list field_name

  abbrev pub constant_list : ℕ → Parse (List Constant)
  constant_list = separated_list constant

  -- `WHERE pred`, or the empty predicate.
  unfoldable pub where_clause : ℕ → Parse Predicate
  where_clause n =
      if_next (match_keyword to_lower Word.where_word)
        (do eat_keyword to_lower Word.where_word; predicate n) (pure [])

  -- `GROUP BY fields` and `ORDER BY fields`. The first word without BY gives the empty list.
  unfoldable pub by_list : Str → ℕ → Parse (List Str)
  by_list word n =
      if_next (match_keyword to_lower word)
        (do
          eat_keyword to_lower word
          if_next (match_keyword to_lower Word.by) (do eat_keyword to_lower Word.by; field_list n)
              (pure []))
        (pure [])

  abbrev pub group_field_list : ℕ → Parse (List Str)
  group_field_list = by_list Word.group

  abbrev pub sort_field_list : ℕ → Parse (List Str)
  sort_field_list = by_list Word.order
