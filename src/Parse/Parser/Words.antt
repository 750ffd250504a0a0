-- ===== src/Parse/Parser/Words.antt =====
-- How the lexer reads names, keywords, numbers and texts.
use sample_db.Base.{
  ℕ, ◌<◌, leb, ltb, arith, ◌≡◌, refl, [], ◌∷◌, Str, true, false, not, ok, codes, str_eq, str_beq,
  nat_eq, length, eq_self,
}
use sample_db.Parse.Word
use sample_db.Parse.Word.{keywords, quote, equal_sign}
use sample_db.Parse.StreamTokenizer.{
  Tokens, tt_word, tt_number, ttype, nval, all_chars, is_digit, is_alnum, digits_value,
  double_limit,
}
use sample_db.Parse.Lexer.{
  is_in, match_delimiter, match_integer, match_string, match_keyword, match_identifier,
  eat_delimiter, eat_integer, eat_string, eat_keyword, eat_identifier,
}
use sample_db.Parse.Parser.Atoms.{
  is_upper, KeepsLower, IsName, token_of, AtomIsProper, unquote-quoted, text,
}

module _ (to_lower : Str → Str) (keeps : KeepsLower to_lower) where
  pub ttype-word :
      (w : Str) (r : Tokens)
      → all_chars is_alnum w ≡ true
      → all_chars is_digit w ≡ false
      → ttype to_lower (w ∷ r) ≡ tt_word
  unfolding ttype
  ttype-word w r a d = rw (d, a) refl

  pub match_identifier-name :
      (w : Str) (r : Tokens) → IsName w → match_identifier to_lower (w ∷ r) ≡ true
  unfolding match_identifier str_beq
  match_identifier-name w r n =
      rw (ttype-word w r n.alnum n.some_letter, keeps w n.lower, n.fresh) refl

  pub eat_identifier-name :
      (w : Str) (r : Tokens) → IsName w → eat_identifier to_lower (w ∷ r) ≡ ok (w, r)
  unfolding eat_identifier
  eat_identifier-name w r n = rw (match_identifier-name w r n, keeps w n.lower) refl

  -- A keyword in lower-case letters.
  pub eat_keyword-word :
      (w : Str) (r : Tokens)
      → all_chars (λ c. not (is_upper c)) w ≡ true
      → all_chars is_alnum w ≡ true
      → all_chars is_digit w ≡ false
      → (match_keyword to_lower w (w ∷ r) ≡ true) × (eat_keyword to_lower w (w ∷ r) ≡ ok (tt, r))
  eat_keyword-word w r l a d =
      let h : match_keyword to_lower w (w ∷ r) ≡ true =
        unfold match_keyword str_beq in rw (ttype-word w r a d, keeps w l, eq_self w) refl in
      (h, unfold eat_keyword in rw h refl)

  pub eat_delimiter-equal :
      (r : Tokens) → eat_delimiter to_lower equal_sign (codes "=" ∷ r) ≡ ok (tt, r)
  unfolding eat_delimiter match_delimiter ttype all_chars
  eat_delimiter-equal r = rw (keeps (codes "=") refl) refl

  below_int : (n : ℕ) → n < 2_147_483_648 → ltb n 2_147_483_648 ≡ true
  below_int n h = ground arith

  below_limit : (n : ℕ) → n < 2_147_483_648 → leb double_limit n ≡ false
  below_limit n h = ground arith

  pub eat_integer-digits :
      (d : Str) (r : Tokens)
      → all_chars is_digit d ≡ true
      → 0 < length d
      → digits_value 0 d < 2_147_483_648
      → eat_integer to_lower (d ∷ r) ≡ ok (digits_value 0 d, r)
  unfolding eat_integer match_integer ttype str_beq nval
  eat_integer-digits [] r h p lt = elim p [ ]
  eat_integer-digits (c ∷ d) r h p lt =
      rw (h, below_limit (digits_value 0 (c ∷ d)) lt, below_int (digits_value 0 (c ∷ d)) lt) refl

  pub eat_string-text :
      (s : Str) (r : Tokens)
      → AtomIsProper (text s)
      → eat_string to_lower (token_of (text s) ∷ r) ≡ ok (s, r)
  unfolding eat_string match_string ttype all_chars
  eat_string-text s r h = rw (keeps (token_of (text s)) h, unquote-quoted s) refl

  -- What tells a token's kind.
  pub ttype-number :
      (d : Str) (r : Tokens) → all_chars is_digit d ≡ true → ttype to_lower (d ∷ r) ≡ tt_number
  unfolding ttype
  ttype-number d r h = rw h refl

  pub ttype-text : (s : Str) (r : Tokens) → ttype to_lower ((quote ∷ s) ∷ r) ≡ quote ∷ []
  unfolding ttype all_chars
  ttype-text s r = refl

  -- A token that is no word is neither a keyword nor an identifier.
  pub no_word :
      (t kind : Str) (r : Tokens)
      → ttype to_lower (t ∷ r) ≡ kind
      → str_beq kind tt_word ≡ false
      → ((w : Str) → match_keyword to_lower w (t ∷ r) ≡ false)
        × (match_identifier to_lower (t ∷ r) ≡ false)
  no_word t kind r h e =
      ((λ w. unfold match_keyword in rw (h, e) refl), unfold match_identifier in rw (h, e) refl)

  pub number-no_word :
      (d : Str) (r : Tokens)
      → all_chars is_digit d ≡ true
      → ((w : Str) → match_keyword to_lower w (d ∷ r) ≡ false)
        × (match_identifier to_lower (d ∷ r) ≡ false)
  unfolding str_beq
  number-no_word d r h = no_word d tt_number r (ttype-number d r h) refl

  pub text-no_word :
      (s : Str) (r : Tokens)
      → ((w : Str) → match_keyword to_lower w ((quote ∷ s) ∷ r) ≡ false)
        × (match_identifier to_lower ((quote ∷ s) ∷ r) ≡ false)
  unfolding str_beq
  text-no_word s r = no_word (quote ∷ s) (quote ∷ []) r (ttype-text s r) refl

  -- `true` and `false` are keywords.
  pub keyword-true :
      (r : Tokens)
      → (match_keyword to_lower Word.true_word (Word.true_word ∷ r) ≡ true)
        × (eat_keyword to_lower Word.true_word (Word.true_word ∷ r) ≡ ok (tt, r))
  unfolding all_chars
  keyword-true r = eat_keyword-word Word.true_word r refl refl refl

  pub keyword-false :
      (r : Tokens)
      → (match_keyword to_lower Word.false_word (Word.false_word ∷ r) ≡ true)
        × (eat_keyword to_lower Word.false_word (Word.false_word ∷ r) ≡ ok (tt, r))
  unfolding all_chars
  keyword-false r = eat_keyword-word Word.false_word r refl refl refl

  pub false-not_true :
      (r : Tokens) → match_keyword to_lower Word.true_word (Word.false_word ∷ r) ≡ false
  unfolding match_keyword ttype all_chars str_beq
  false-not_true r = rw (keeps Word.false_word refl) refl

  pub true-no_identifier : (r : Tokens) → match_identifier to_lower (Word.true_word ∷ r) ≡ false
  unfolding match_identifier ttype all_chars str_beq is_in
  true-no_identifier r = rw (keeps Word.true_word refl) refl

  pub false-no_identifier : (r : Tokens) → match_identifier to_lower (Word.false_word ∷ r) ≡ false
  unfolding match_identifier ttype all_chars str_beq is_in
  false-no_identifier r = rw (keeps Word.false_word refl) refl
