-- ===== src/Parse/Parser/Printing.antt =====
-- Predicates as tokens: what is written for a predicate is parsed as that predicate.
use sample_db.Base.{
  ℕ, zero, suc, ◌<◌, ◌≡◌, refl, List, [], ◌∷◌, ◌++◌, Str, true, false, ok, codes, arith, pos,
  str_eq, nat_eq, length,
}
use sample_db.Scan.Constant.{int_constant, string_constant}
use sample_db.Parse.Word
use sample_db.Parse.Word.{keywords, quote, equal_sign}
use sample_db.Parse.StreamTokenizer.{Tokens, ttype, all_chars, digits_value}
use sample_db.Parse.Lexer.{match_string, match_keyword, eat_keyword}
use sample_db.Parse.Lexer.{if_next, ◌>>=◌}
use sample_db.Parse.Parser.{constant, expression, term, predicate}
use sample_db.Parse.Parser.Atoms.{
  KeepsLower, Atom, token_of, meaning_of, AtomIsProper, AllProper, print_terms, terms_of, name,
  number, text, truth,
}
use sample_db.Parse.Parser.Words.{
  match_identifier-name, eat_identifier-name, eat_keyword-word, eat_delimiter-equal,
  eat_integer-digits, eat_string-text, ttype-number, number-no_word, text-no_word, keyword-true,
  keyword-false, false-not_true, true-no_identifier, false-no_identifier,
}

module _ (to_lower : Str → Str) (keeps : KeepsLower to_lower) where
  constant-number :
      (d : Str) (r : Tokens)
      → AtomIsProper (number d)
      → constant to_lower (d ∷ r) ≡ ok (int_constant (pos (digits_value 0 d)), r)
  unfolding constant digits_value
  constant-number d r h =
      let none : match_string to_lower (d ∷ r) ≡ false =
        unfold match_string in rw (ttype-number to_lower keeps d r (h.0)) refl in
      rw
        (
          constant,
          if_next,
          ◌>>=◌,
          (number-no_word to_lower keeps d r (h.0)).0 Word.true_word,
          (number-no_word to_lower keeps d r (h.0)).0 Word.false_word,
          none,
          eat_integer-digits to_lower keeps d r (h.0) (h.1) (h.2),
        )
        refl

  constant-text :
      (s : Str) (r : Tokens)
      → AtomIsProper (text s)
      → constant to_lower (token_of (text s) ∷ r) ≡ ok (string_constant s, r)
  unfolding constant digits_value
  constant-text s r h =
      let some : match_string to_lower (token_of (text s) ∷ r) ≡ true =
        unfold match_string ttype all_chars in refl in
      rw
        (
          constant,
          if_next,
          ◌>>=◌,
          (text-no_word to_lower keeps (s ++ quote ∷ []) r).0 Word.true_word,
          (text-no_word to_lower keeps (s ++ quote ∷ []) r).0 Word.false_word,
          some,
          eat_string-text to_lower keeps s r h,
        )
        refl

  constant-true :
      (r : Tokens) → constant to_lower (Word.true_word ∷ r) ≡ ok (int_constant (pos 1), r)
  unfolding constant digits_value
  constant-true r =
      rw
        (
          constant,
          if_next,
          ◌>>=◌,
          (keyword-true to_lower keeps r).0,
          (keyword-true to_lower keeps r).1,
        )
        refl

  constant-false :
      (r : Tokens) → constant to_lower (Word.false_word ∷ r) ≡ ok (int_constant (pos 0), r)
  unfolding constant digits_value
  constant-false r =
      rw
        (
          constant,
          if_next,
          ◌>>=◌,
          false-not_true to_lower keeps r,
          (keyword-false to_lower keeps r).0,
          (keyword-false to_lower keeps r).1,
        )
        refl

  -- One side of a term.
  expression-atom :
      (x : Atom) (r : Tokens)
      → AtomIsProper x
      → expression to_lower (token_of x ∷ r) ≡ ok (meaning_of x, r)
  unfolding expression
  expression-atom (name w) r h =
      rw
        (
          expression,
          if_next,
          ◌>>=◌,
          match_identifier-name to_lower keeps w r h,
          eat_identifier-name to_lower keeps w r h,
        )
        refl
  expression-atom (number d) r h =
      rw
        (
          expression,
          if_next,
          ◌>>=◌,
          (number-no_word to_lower keeps d r (h.0)).1,
          constant-number d r h,
        )
        refl
  expression-atom (text s) r h =
      rw
        (
          expression,
          if_next,
          ◌>>=◌,
          (text-no_word to_lower keeps (s ++ quote ∷ []) r).1,
          constant-text s r h,
        )
        refl
  expression-atom (truth true) r h =
      rw (expression, if_next, ◌>>=◌, true-no_identifier to_lower keeps r, constant-true r) refl
  expression-atom (truth false) r h =
      rw (expression, if_next, ◌>>=◌, false-no_identifier to_lower keeps r, constant-false r) refl

  term-print :
      (x y : Atom) (r : Tokens)
      → AtomIsProper x
      → AtomIsProper y
      → term to_lower (token_of x ∷ codes "=" ∷ token_of y ∷ r)
        ≡ ok (record { lhs = meaning_of x; rhs = meaning_of y }, r)
  unfolding term
  term-print x y r h k =
      rw
        (
          ◌>>=◌,
          expression-atom x (codes "=" ∷ token_of y ∷ r) h,
          eat_delimiter-equal to_lower keeps (token_of y ∷ r),
          expression-atom y r k,
        )
        refl

  and-word :
      (r : Tokens)
      → (match_keyword to_lower Word.ampersand (Word.ampersand ∷ r) ≡ true)
        × (eat_keyword to_lower Word.ampersand (Word.ampersand ∷ r) ≡ ok (tt, r))
  unfolding all_chars
  and-word r = eat_keyword-word to_lower keeps Word.ampersand r refl refl refl

  -- The tokens written for a predicate, its terms with `and` between them, are parsed as that
  -- predicate, on any fuel above the number of its terms, when no further `and` stands next. A
  -- number fits an `int`.
  pub predicate-print_terms :
      (x y : Atom) (more : List (Atom × Atom)) (r : Tokens) (n : ℕ)
      → AtomIsProper x
      → AtomIsProper y
      → AllProper more
      → match_keyword to_lower Word.ampersand r ≡ false
      → length more < n
      → predicate to_lower n (print_terms x y more r) ≡ ok (terms_of ((x, y) ∷ more), r)
  unfolding predicate
  predicate-print_terms x y more r zero h k hs none enough = absurd (omega arith)
  predicate-print_terms x y [] r (suc n) h k hs none enough =
      rw (if_next, ◌>>=◌, term-print x y r h k, none) refl
  predicate-print_terms x y ((a, b) ∷ more) r (suc n) h k hs none enough =
      rw
        (
          if_next,
          ◌>>=◌,
          term-print x y (Word.ampersand ∷ print_terms a b more r) h k,
          (and-word (print_terms a b more r)).0,
          (and-word (print_terms a b more r)).1,
          predicate-print_terms a b more r n (hs.0) (hs.1) (hs.2) none (omega arith),
        )
        refl
