-- ===== src/Parse/Parser/Commands.antt =====
-- The commands: each ends, on more fuel than there are tokens.
use sample_db.Base.{ℕ, suc, ◌<◌, refl, Str, length, arith}
use sample_db.Parse.Word
use sample_db.Parse.StreamTokenizer.{Tokens}
use sample_db.Parse.Lexer.{match_keyword, eat_delimiter, eat_keyword, eat_identifier}
use sample_db.Parse.Parser.{constant, separated_list, where_clause}
use sample_db.Parse.Parser.Schemas.{field_definition_list}
use sample_db.Parse.Parser.Statements.{
  query, remove, insert, modify, create_table, create_view, create_index, create, update_cmd,
}
use sample_db.Parse.Parser.Fuel.{
  Under, Eats, Under-step, Under-cond, Under-weaken, eat_delimiter-Eats, eat_keyword-Eats,
  eat_identifier-Eats,
}
use sample_db.Parse.Parser.Ends.{
  constant-Eats, separated_list-Under, where_clause-Under, query-Under,
}
use sample_db.Parse.Parser.Fields.{field_definition_list-Under}

module _ (to_lower : Str → Str) where
  remove-Under : (n : ℕ) (ts : Tokens) → length ts < n → Under (length ts) (remove to_lower n ts)
  unfolding remove
  remove-Under n ts h =
      Under-step _ (length ts) _ (eat_keyword to_lower Word.delete ts)
        (eat_keyword-Eats to_lower Word.delete ts)
        λ u1 r1 h1.
          Under-step _ (length r1) _ (eat_keyword to_lower Word.from r1)
            (eat_keyword-Eats to_lower Word.from r1)
            λ u2 r2 h2.
              Under-step _ (length r2) _ (eat_identifier to_lower r2)
                (eat_identifier-Eats to_lower r2)
                λ t r3 h3.
                  Under-step _ (suc (length r3)) _ (where_clause to_lower n r3)
                    (where_clause-Under to_lower n r3 (omega arith)) λ p r4 h4. omega arith

  insert-Under : (n : ℕ) (ts : Tokens) → length ts < n → Under (length ts) (insert to_lower n ts)
  unfolding insert
  insert-Under n ts h =
      Under-step _ (length ts) _ (eat_keyword to_lower Word.insert ts)
        (eat_keyword-Eats to_lower Word.insert ts)
        λ u1 r1 h1.
          Under-step _ (length r1) _ (eat_keyword to_lower Word.into r1)
            (eat_keyword-Eats to_lower Word.into r1)
            λ u2 r2 h2.
              Under-step _ (length r2) _ (eat_identifier to_lower r2)
                (eat_identifier-Eats to_lower r2)
                λ t r3 h3.
                  Under-step _ (length r3) _ (eat_delimiter to_lower Word.left_paren r3)
                    (eat_delimiter-Eats to_lower Word.left_paren refl r3)
                    λ u4 r4 h4.
                      Under-step _ (length r4) _
                        (separated_list to_lower (eat_identifier to_lower) n r4)
                        (separated_list-Under to_lower (eat_identifier to_lower) n r4
                          (eat_identifier-Eats to_lower) (omega arith))
                        λ u5 r5 h5.
                          Under-step _ (length r5) _ (eat_delimiter to_lower Word.right_paren r5)
                            (eat_delimiter-Eats to_lower Word.right_paren refl r5)
                            λ u6 r6 h6.
                              Under-step _ (length r6) _ (eat_keyword to_lower Word.values r6)
                                (eat_keyword-Eats to_lower Word.values r6)
                                λ u7 r7 h7.
                                  Under-step _ (length r7) _
                                    (eat_delimiter to_lower Word.left_paren r7)
                                    (eat_delimiter-Eats to_lower Word.left_paren refl r7)
                                    λ u8 r8 h8.
                                      Under-step _ (length r8) _
                                        (separated_list to_lower (constant to_lower) n r8)
                                        (separated_list-Under to_lower (constant to_lower) n r8
                                          (constant-Eats to_lower) (omega arith))
                                        λ u9 r9 h9.
                                          Under-step _ (length r9) _
                                            (eat_delimiter to_lower Word.right_paren r9)
                                            (eat_delimiter-Eats to_lower Word.right_paren refl r9)
                                            λ u10 r10 h10. omega arith

  modify-Under : (n : ℕ) (ts : Tokens) → length ts < n → Under (length ts) (modify to_lower n ts)
  unfolding modify
  modify-Under n ts h =
      Under-step _ (length ts) _ (eat_keyword to_lower Word.update ts)
        (eat_keyword-Eats to_lower Word.update ts)
        λ u1 r1 h1.
          Under-step _ (length r1) _ (eat_identifier to_lower r1) (eat_identifier-Eats to_lower r1)
            λ u2 r2 h2.
              Under-step _ (length r2) _ (eat_keyword to_lower Word.set_word r2)
                (eat_keyword-Eats to_lower Word.set_word r2)
                λ u3 r3 h3.
                  Under-step _ (length r3) _ (eat_identifier to_lower r3)
                    (eat_identifier-Eats to_lower r3)
                    λ u4 r4 h4.
                      Under-step _ (length r4) _ (eat_delimiter to_lower Word.equal_sign r4)
                        (eat_delimiter-Eats to_lower Word.equal_sign refl r4)
                        λ u5 r5 h5.
                          Under-step _ (suc (length r5)) _ (where_clause to_lower n r5)
                            (where_clause-Under to_lower n r5 (omega arith)) λ u6 r6 h6. omega arith

  create_view-Under :
      (n : ℕ) (ts : Tokens) → length ts < n → Under (length ts) (create_view to_lower n ts)
  unfolding create_view
  create_view-Under n ts h =
      Under-step _ (length ts) _ (eat_keyword to_lower Word.view ts)
        (eat_keyword-Eats to_lower Word.view ts)
        λ u1 r1 h1.
          Under-step _ (length r1) _ (eat_identifier to_lower r1) (eat_identifier-Eats to_lower r1)
            λ u2 r2 h2.
              Under-step _ (length r2) _ (eat_keyword to_lower Word.as_word r2)
                (eat_keyword-Eats to_lower Word.as_word r2)
                λ u3 r3 h3.
                  Under-step _ (length r3) _ (query to_lower n r3)
                    (query-Under to_lower n r3 (omega arith)) λ u4 r4 h4. omega arith

  create_index-Eats : Eats (create_index to_lower)
  unfolding create_index
  create_index-Eats ts =
      Under-step _ (length ts) _ (eat_keyword to_lower Word.index ts)
        (eat_keyword-Eats to_lower Word.index ts)
        λ u1 r1 h1.
          Under-step _ (length r1) _ (eat_identifier to_lower r1) (eat_identifier-Eats to_lower r1)
            λ u2 r2 h2.
              Under-step _ (length r2) _ (eat_keyword to_lower Word.on r2)
                (eat_keyword-Eats to_lower Word.on r2)
                λ u3 r3 h3.
                  Under-step _ (length r3) _ (eat_identifier to_lower r3)
                    (eat_identifier-Eats to_lower r3)
                    λ u4 r4 h4.
                      Under-step _ (length r4) _ (eat_delimiter to_lower Word.left_paren r4)
                        (eat_delimiter-Eats to_lower Word.left_paren refl r4)
                        λ u5 r5 h5.
                          Under-step _ (length r5) _ (eat_identifier to_lower r5)
                            (eat_identifier-Eats to_lower r5)
                            λ u6 r6 h6.
                              Under-step _ (length r6) _
                                (eat_delimiter to_lower Word.right_paren r6)
                                (eat_delimiter-Eats to_lower Word.right_paren refl r6)
                                λ u7 r7 h7. omega arith

  create_table-Under :
      (n : ℕ) (ts : Tokens) → length ts < n → Under (length ts) (create_table to_lower n ts)
  unfolding create_table
  create_table-Under n ts h =
      Under-step _ (length ts) _ (eat_keyword to_lower Word.table ts)
        (eat_keyword-Eats to_lower Word.table ts)
        λ u1 r1 h1.
          Under-step _ (length r1) _ (eat_identifier to_lower r1) (eat_identifier-Eats to_lower r1)
            λ u2 r2 h2.
              Under-step _ (length r2) _ (eat_delimiter to_lower Word.left_paren r2)
                (eat_delimiter-Eats to_lower Word.left_paren refl r2)
                λ u3 r3 h3.
                  Under-step _ (length r3) _ (field_definition_list to_lower n r3)
                    (field_definition_list-Under to_lower n r3 (omega arith))
                    λ u4 r4 h4.
                      Under-step _ (length r4) _ (eat_delimiter to_lower Word.right_paren r4)
                        (eat_delimiter-Eats to_lower Word.right_paren refl r4)
                        λ u5 r5 h5. omega arith

  create-Under : (n : ℕ) (ts : Tokens) → length ts < n → Under (length ts) (create to_lower n ts)
  unfolding create
  create-Under n ts h =
      Under-step _ (length ts) _ (eat_keyword to_lower Word.create ts)
        (eat_keyword-Eats to_lower Word.create ts)
        λ u r1 h1. Under-weaken (length r1) _ _ (omega arith) (
          Under-cond _ (match_keyword to_lower Word.table r1) _ _
            (create_table-Under n r1 (omega arith))
            (Under-cond _ (match_keyword to_lower Word.view r1) _ _
              (create_view-Under n r1 (omega arith)) (create_index-Eats r1)))

  -- On any fuel above the number of the tokens, a command is read, with fewer tokens left, or the
  -- parser fails: not for want of fuel, so no recursion of it runs on.
  pub update_cmd-Under :
      (n : ℕ) (ts : Tokens) → length ts < n → Under (length ts) (update_cmd to_lower n ts)
  unfolding update_cmd
  update_cmd-Under n ts h =
      Under-cond _ (match_keyword to_lower Word.insert ts) _ _ (insert-Under n ts h) (
        Under-cond _ (match_keyword to_lower Word.delete ts) _ _ (remove-Under n ts h) (
          Under-cond _ (match_keyword to_lower Word.update ts) _ _ (modify-Under n ts h)
            (create-Under n ts h)))
