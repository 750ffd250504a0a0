-- ===== src/Parse/Lexer.antt =====
-- parse/Lexer.cpp: tests on the next token, and steps that take it. A step gives its value and the
-- tokens that are left, or throws.
use sample_db.Base.{
  ℕ, ◌-◌, List, [], ◌∷◌, Bool, true, false, not, ◌&&◌, ◌||◌, Str, str_eq, ◌==◌, nat_eq,
  if◌then◌else◌, length, take, get_elem?, leb, Result, ok, err, thrown, none, some,
}
use sample_db.Parse.Word.{quote, keywords}
use sample_db.Parse.StreamTokenizer.{
  Tokens, ttype, sval, nval, cut_to_int, next_token, tt_word, tt_number, starts_with,
}

-- A parsing step.
abbrev pub Parse : Type 0 → Type 0
Parse A = Tokens → Result (A × Tokens)

abbrev pub pure : {A : Type 0} → A → Parse A
pure a ts = ok (a, ts)

infixl 5 ◌>>=◌ ◌>>◌
abbrev pub ◌>>=◌ : {A B : Type 0} → Parse A → (A → Parse B) → Parse B
◌>>=◌ m f ts = elim (m ts) [ ok (a, rest) ↦ f a rest | err e ↦ err e ]

abbrev pub ◌>>◌ : {B : Type 0} → Parse (Unit {0}) → Parse B → Parse B
m >> k = m >>= λ _. k

-- `if (test on the next tokens) m else k`.
abbrev pub if_next : {A : Type 0} → (Tokens → Bool) → Parse A → Parse A → Parse A
if_next test m k ts = elim (test ts) [ true ↦ m ts | false ↦ k ts ]

unfoldable pub is_in : Str → List Str → Bool
is_in s [] = false
is_in s (w ∷ ws) = let rest = is_in s ws in w == s || rest

abbrev pub last_is : ℕ → Str → Bool
last_is c s = elim (get_elem? s (length s - 1)) [ none ↦ false | some d ↦ d == c ]

abbrev rest_of : Str → Str
rest_of [] = []
rest_of (c ∷ cs) = cs

-- `unquote`: a quote at both ends is taken off.
unfoldable pub unquote : Str → Str
unquote s =
    if leb 2 (length s) && starts_with quote s && last_is quote s
    then take (length s - 2) (rest_of s)
    else s

module _ (to_lower : Str → Str) where
  unfoldable pub match_delimiter : ℕ → Tokens → Bool
  unfolding ttype
  match_delimiter delim ts = starts_with delim (ttype to_lower ts)

  unfoldable pub match_integer : Tokens → Bool
  unfolding ttype
  match_integer ts = ttype to_lower ts == tt_number

  unfoldable pub match_string : Tokens → Bool
  unfolding ttype
  match_string ts = starts_with quote (ttype to_lower ts)

  unfoldable pub match_keyword : Str → Tokens → Bool
  unfolding ttype
  match_keyword keyword ts = ttype to_lower ts == tt_word && sval to_lower ts == keyword

  unfoldable pub match_identifier : Tokens → Bool
  unfolding ttype is_in
  match_identifier ts = ttype to_lower ts == tt_word && not (is_in (sval to_lower ts) keywords)

  abbrev pub take_if : {A : Type 0} → Bool → Result A → Tokens → Result (A × Tokens)
  take_if test value ts = elim test [
    | true ↦ elim value [ ok a ↦ ok (a, next_token ts) | err e ↦ err e ]
    | false ↦ err thrown
  ]

  unfoldable pub eat_delimiter : ℕ → Parse (Unit {0})
  unfolding match_delimiter
  eat_delimiter delim ts = take_if (match_delimiter delim ts) (ok tt) ts

  -- The number is cut to an `int`; what a larger one becomes is not defined.
  unfoldable pub eat_integer : Parse ℕ
  unfolding match_integer nval
  eat_integer ts = take_if (match_integer ts) (cut_to_int (nval ts)) ts

  -- The text of a string is in lower case as well.
  unfoldable pub eat_string : Parse Str
  unfolding match_string unquote
  eat_string ts = take_if (match_string ts) (ok (unquote (sval to_lower ts))) ts

  unfoldable pub eat_keyword : Str → Parse (Unit {0})
  unfolding match_keyword
  eat_keyword keyword ts = take_if (match_keyword keyword ts) (ok tt) ts

  unfoldable pub eat_identifier : Parse Str
  unfolding match_identifier
  eat_identifier ts = take_if (match_identifier ts) (ok (sval to_lower ts)) ts
