-- ===== src/Examples/Parsing.antt =====
-- Parsing with a change to lower case that is written out.
use sample_db.Base.{
  ℕ, ◌+◌, ◌<◌, ◌≡◌, refl, [], ◌∷◌, Str, codes, true, false, not, ok, arith, map, if◌then◌else◌,
  str_beq,
}
use sample_db.Scan.Predicate.{field_expression}
use sample_db.Parse.Word
use sample_db.Parse.StreamTokenizer.{Tokens, all_chars, is_digit, ttype, digits_value}
use sample_db.Parse.Lexer.{is_in, match_keyword}
use sample_db.Parse.Data.{modify_data}
use sample_db.Parse.Parser.{predicate}
use sample_db.Parse.Parser.Statements.{update_cmd, modify}
use sample_db.Parse.Parser.Atoms.{KeepsLower, IsName, is_upper, name, number, text, terms_of}
use sample_db.Parse.Parser.Fuel.{Under}
use sample_db.Parse.Parser.Commands.{update_cmd-Under}
use sample_db.Parse.Parser.Printing.{predicate-print_terms}
use sample_db.Parse.Parser.Update.{modify-ignores_value}

-- `to_lower_copy`, on ASCII letters.
abbrev lower : ℕ → ℕ
lower c = if is_upper c then c + 32 else c

abbrev to_lower : Str → Str
to_lower s = map lower s

keeps : KeepsLower to_lower
unfolding all_chars
keeps [] h = refl
keeps (c ∷ s) h = ground (arith, keeps s)

age-IsName : IsName (codes "age")
unfolding all_chars is_in str_beq
age-IsName = record { lower = refl; alnum = refl; some_letter = refl; fresh = refl }

city-IsName : IsName (codes "city")
unfolding all_chars is_in str_beq
city-IsName = record { lower = refl; alnum = refl; some_letter = refl; fresh = refl }

digits : all_chars is_digit (codes "30") ≡ true
unfolding all_chars
digits = refl

fits : digits_value 0 (codes "30") < 2_147_483_648
unfolding digits_value
fits = omega arith

quoted : all_chars (λ c. not (is_upper c)) (codes "'rome'") ≡ true
unfolding all_chars
quoted = refl

no_more : match_keyword to_lower Word.ampersand [] ≡ false
unfolding match_keyword ttype str_beq
no_more = refl

predicate-print_terms_example :
    predicate to_lower 2 (
      codes "age"
      ∷ codes "="
      ∷ codes "30"
      ∷ codes "and"
      ∷ codes "city"
      ∷ codes "="
      ∷ codes "'rome'"
      ∷ [])
    ≡ ok (
      terms_of (
          (name (codes "age"), number (codes "30"))
          ∷ (name (codes "city"), text (codes "rome"))
          ∷ []),
      [],
    )
predicate-print_terms_example =
    predicate-print_terms to_lower keeps (name (codes "age")) (number (codes "30"))
      ((name (codes "city"), text (codes "rome")) ∷ []) [] 2 age-IsName (digits, omega arith, fits)
      (city-IsName, quoted, tt) no_more (omega arith)

abbrev select_tokens : Tokens
select_tokens = codes "select" ∷ codes "age" ∷ codes "from" ∷ codes "people" ∷ []

abbrev delete_tokens : Tokens
delete_tokens = codes "delete" ∷ codes "from" ∷ codes "people" ∷ []

update_cmd-Under_example : Under 3 (update_cmd to_lower 4 delete_tokens)
update_cmd-Under_example = update_cmd-Under to_lower 4 delete_tokens (omega arith)

no_where : match_keyword to_lower Word.where_word (codes "31" ∷ codes "where" ∷ []) ≡ false
unfolding match_keyword ttype all_chars str_beq
no_where = refl

modify-ignores_value_example :
    modify to_lower 3 (
      codes "update"
      ∷ codes "city"
      ∷ codes "set"
      ∷ codes "age"
      ∷ codes "="
      ∷ codes "31"
      ∷ codes "where"
      ∷ [])
    ≡ ok (
      modify_data (codes "city") (codes "age") (field_expression []) [],
      codes "31" ∷ codes "where" ∷ [],
    )
modify-ignores_value_example =
    modify-ignores_value to_lower keeps (codes "city") (codes "age") (codes "31")
      (codes "where" ∷ []) 3 city-IsName age-IsName no_where
