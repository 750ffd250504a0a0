-- ===== src/Parse/Parser/Ends.antt =====
-- The recursions of the parser end: predicates, lists, queries and commands.
use sample_db.Base.{ℕ, zero, suc, ◌<◌, refl, Str, length, arith}
use sample_db.Parse.Word
use sample_db.Parse.Data.{QueryData, TableData}
use sample_db.Parse.StreamTokenizer.{Tokens}
use sample_db.Parse.Lexer.{
  Parse, match_delimiter, match_string, match_keyword, match_identifier, eat_delimiter, eat_integer,
  eat_string, eat_keyword, eat_identifier,
}
use sample_db.Parse.Parser.{
  constant, expression, term, predicate, separated_list, where_clause, by_list,
}
use sample_db.Parse.Parser.Statements.{table_item, more_tables, table_list, query}
use sample_db.Parse.Parser.Fuel.{
  Under, Eats, Under-step, Under-cond, Under-weaken, eat_delimiter-Eats, eat_keyword-Eats,
  eat_identifier-Eats, eat_string-Eats, eat_integer-Eats,
}

module _ (to_lower : Str → Str) where
  abbrev keyword : (w : Str) → Eats (eat_keyword to_lower w)
  keyword w = eat_keyword-Eats to_lower w

  pub constant-Eats : Eats (constant to_lower)
  unfolding constant
  constant-Eats ts =
      let k : ℕ = length ts in
      Under-cond _ (match_keyword to_lower Word.true_word ts) _ _
        (Under-step _ k _ (eat_keyword to_lower Word.true_word ts) (keyword Word.true_word ts)
          (λ a rest h. h))
        (Under-cond _ (match_keyword to_lower Word.false_word ts) _ _
          (Under-step _ k _ (eat_keyword to_lower Word.false_word ts) (keyword Word.false_word ts)
            (λ a rest h. h))
          (Under-cond _ (match_string to_lower ts) _ _
            (Under-step _ k _ (eat_string to_lower ts) (eat_string-Eats to_lower ts)
              (λ a rest h. h))
            (Under-step _ k _ (eat_integer to_lower ts) (eat_integer-Eats to_lower ts)
              (λ a rest h. h))))

  expression-Eats : Eats (expression to_lower)
  unfolding expression
  expression-Eats ts =
      Under-cond _ (match_identifier to_lower ts) _ _
        (Under-step _ (length ts) _ (eat_identifier to_lower ts) (eat_identifier-Eats to_lower ts)
          (λ a rest h. h))
        (Under-step _ (length ts) _ (constant to_lower ts) (constant-Eats ts) (λ a rest h. h))

  term-Eats : Eats (term to_lower)
  unfolding term
  term-Eats ts =
      Under-step _ (length ts) _ (expression to_lower ts) (expression-Eats ts) λ lhs r1 h1.
        Under-step _ (length r1) _ (eat_delimiter to_lower Word.equal_sign r1)
          (eat_delimiter-Eats to_lower Word.equal_sign refl r1)
          λ u r2 h2.
            Under-step _ (length r2) _ (expression to_lower r2) (expression-Eats r2)
              λ rhs r3 h3. omega arith

  -- On more fuel than there are tokens a predicate is read or throws, and takes a token.
  predicate-Under :
      (n : ℕ) (ts : Tokens) → length ts < n → Under (length ts) (predicate to_lower n ts)
  unfolding predicate
  predicate-Under zero ts h = absurd (omega arith)
  predicate-Under (suc n) ts h =
      Under-step _ (length ts) _ (term to_lower ts) (term-Eats ts) λ t r1 h1.
        Under-cond _ (match_keyword to_lower Word.ampersand r1) _ _
          (Under-step _ (length r1) _ (eat_keyword to_lower Word.ampersand r1)
            (keyword Word.ampersand r1)
            λ u r2 h2.
              Under-step _ (length r2) _ (predicate to_lower n r2)
                (predicate-Under n r2 (omega arith)) λ p r3 h3. omega arith)
          h1

  -- So does a list whose items take a token each.
  pub separated_list-Under :
      {A : Type 0} (item : Parse A) (n : ℕ) (ts : Tokens)
      → Eats item
      → length ts < n
      → Under (length ts) (separated_list to_lower item n ts)
  unfolding separated_list
  separated_list-Under item zero ts e h = absurd (omega arith)
  separated_list-Under item (suc n) ts e h = Under-step _ (length ts) _ (item ts) (e ts) λ t r1 h1.
      Under-cond _ (match_delimiter to_lower Word.comma r1) _ _
        (Under-step _ (length r1) _ (eat_delimiter to_lower Word.comma r1)
          (eat_delimiter-Eats to_lower Word.comma refl r1)
          λ u r2 h2.
            Under-step _ (length r2) _ (separated_list to_lower item n r2)
              (separated_list-Under item n r2 e (omega arith)) λ p r3 h3. omega arith)
        h1

  pub where_clause-Under :
      (n : ℕ) (ts : Tokens) → length ts < n → Under (suc (length ts)) (where_clause to_lower n ts)
  unfolding where_clause
  where_clause-Under n ts h =
      Under-cond _ (match_keyword to_lower Word.where_word ts) _ _
        (Under-step _ (length ts) _ (eat_keyword to_lower Word.where_word ts)
          (keyword Word.where_word ts)
          λ u r1 h1.
            Under-weaken (length r1) _ _ (omega arith) (predicate-Under n r1 (omega arith)))
        (omega arith)

  by_list-Under :
      (w : Str) (n : ℕ) (ts : Tokens)
      → length ts < n
      → Under (suc (length ts)) (by_list to_lower w n ts)
  unfolding by_list
  by_list-Under w n ts h =
      Under-cond _ (match_keyword to_lower w ts) _ _
        (Under-step _ (length ts) _ (eat_keyword to_lower w ts) (keyword w ts) λ u r1 h1.
          Under-cond _ (match_keyword to_lower Word.by r1) _ _
            (Under-step _ (length r1) _ (eat_keyword to_lower Word.by r1) (keyword Word.by r1)
              λ v r2 h2. Under-weaken (length r2) _ _ (omega arith) (
                separated_list-Under (eat_identifier to_lower) n r2 (eat_identifier-Eats to_lower)
                  (omega arith)))
            (omega arith))
        (omega arith)

  -- A parser that is only known on few tokens.
  abbrev EatsBelow : {A : Type 0} → ℕ → Parse A → Type 0
  EatsBelow n m = (ts : Tokens) → length ts < n → Under (length ts) (m ts)

  table_item-Under :
      (q : Parse QueryData) (n : ℕ) (tables : TableData) (ts : Tokens)
      → EatsBelow n q
      → length ts < n
      → Under (length ts) (table_item to_lower q tables ts)
  unfolding table_item
  table_item-Under q n tables ts e h =
      Under-cond _ (match_delimiter to_lower Word.left_paren ts) _ _
        (Under-step _ (length ts) _ (eat_delimiter to_lower Word.left_paren ts)
          (eat_delimiter-Eats to_lower Word.left_paren refl ts)
          λ u r1 h1. Under-step _ (length r1) _ (q r1) (e r1 (omega arith)) λ d r2 h2.
            Under-step _ (length r2) _ (eat_delimiter to_lower Word.right_paren r2)
              (eat_delimiter-Eats to_lower Word.right_paren refl r2) λ v r3 h3. omega arith)
        (Under-step _ (length ts) _ (eat_identifier to_lower ts) (eat_identifier-Eats to_lower ts)
          (λ a rest h. h))

  more_tables-Under :
      (q : Parse QueryData) (n m : ℕ) (tables : TableData) (ts : Tokens)
      → EatsBelow n q
      → length ts < n
      → length ts < m
      → Under (suc (length ts)) (more_tables to_lower q m tables ts)
  unfolding more_tables
  more_tables-Under q n zero tables ts e h g = absurd (omega arith)
  more_tables-Under q n (suc m) tables ts e h g =
      Under-cond _ (match_delimiter to_lower Word.comma ts) _ _
        (Under-step _ (length ts) _ (eat_delimiter to_lower Word.comma ts)
          (eat_delimiter-Eats to_lower Word.comma refl ts)
          λ u r1 h1.
            Under-step _ (length r1) _ (table_item to_lower q tables r1)
              (table_item-Under q n tables r1 e (omega arith))
              λ t r2 h2.
                Under-weaken (suc (length r2)) _ _ (omega arith)
                  (more_tables-Under q n m t r2 e (omega arith) (omega arith)))
        (omega arith)

  -- On any fuel above the number of the tokens, a query is read, with fewer tokens left, or the
  -- parser fails: not for want of fuel, so the loops and the nested queries end.
  pub query-Under : (n : ℕ) (ts : Tokens) → length ts < n → Under (length ts) (query to_lower n ts)
  unfolding query table_list
  query-Under zero ts h = absurd (omega arith)
  query-Under (suc n) ts h =
      Under-step _ (length ts) _ (eat_keyword to_lower Word.select ts) (keyword Word.select ts)
        λ u r1 h1.
          Under-step _ (length r1) _ (separated_list to_lower (eat_identifier to_lower) n r1)
            (separated_list-Under (eat_identifier to_lower) n r1 (eat_identifier-Eats to_lower)
              (omega arith))
            λ fields r2 h2.
              Under-step _ (length r2) _ (eat_keyword to_lower Word.from r2) (keyword Word.from r2)
                λ v r3 h3.
                  Under-step _ (length r3) _ (table_list to_lower (query to_lower n) n r3)
                    (Under-step _ (length r3) _ (table_item to_lower (query to_lower n) _ r3)
                      (table_item-Under (query to_lower n) n _ r3 (query-Under n) (omega arith))
                      λ t r4 h4. Under-weaken (suc (length r4)) _ _ (omega arith) (
                        more_tables-Under (query to_lower n) n n t r4 (query-Under n) (omega arith)
                          (omega arith)))
                    λ tables r4 h4.
                      Under-step _ (suc (length r4)) _ (where_clause to_lower n r4)
                        (where_clause-Under n r4 (omega arith))
                        λ p r5 h5.
                          Under-step _ (suc (length r5)) _ (by_list to_lower Word.group n r5)
                            (by_list-Under Word.group n r5 (omega arith))
                            λ g r6 h6.
                              Under-step _ (suc (length r6)) _ (by_list to_lower Word.order n r6)
                                (by_list-Under Word.order n r6 (omega arith)) λ o r7 h7. omega arith
