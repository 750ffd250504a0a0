-- ===== src/Parse/StreamTokenizer.antt =====
-- parse/StreamTokenizer.cpp: what kind of token stands next. The split of the text into tokens and
-- the change to lower case are Boost's: the tokens that are left are the state, and `to_lower` is a
-- parameter.
use sample_db.Base.{
  ℕ, ◌+◌, ◌-◌, ◌*◌, List, [], ◌∷◌, Bool, true, false, ◌&&◌, ◌||◌, Str, str_eq, ◌==◌, nat_eq, codes,
  leb, ltb, ◌^◌, if◌then◌else◌, Result, ok, err, thrown, fault,
}
use sample_db.Parse.Word.{quote}

abbrev pub Tokens : Type 0
Tokens = List Str

abbrev pub tt_eof : Str
tt_eof = codes "EOF"

abbrev pub tt_word : Str
tt_word = codes "WORD"

abbrev pub tt_number : Str
tt_number = codes "NUMBER"

-- `isdigit` and `isalnum`, in the C locale.
abbrev pub is_digit : ℕ → Bool
is_digit c = leb b'0' c && leb c b'9'

abbrev pub is_alnum : ℕ → Bool
is_alnum c = is_digit c || (leb b'a' c && leb c b'z') || (leb b'A' c && leb c b'Z')

unfoldable pub all_chars : (ℕ → Bool) → Str → Bool
all_chars test [] = true
all_chars test (c ∷ cs) = let rest = all_chars test cs in test c && rest

abbrev pub starts_with : ℕ → Str → Bool
starts_with c [] = false
starts_with c (d ∷ ds) = d == c

module _ (to_lower : Str → Str) where
  -- `ttype`: a number, a word, the quote, or the token itself.
  unfoldable pub token_type : Str → Str
  unfolding all_chars
  token_type token =
      if all_chars is_digit token
      then tt_number
      else if all_chars is_alnum token
      then tt_word
      else if starts_with quote token
      then quote ∷ []
      else to_lower token

  unfoldable pub ttype : Tokens → Str
  unfolding token_type
  ttype [] = tt_eof
  ttype (token ∷ rest) = token_type token

  -- `sval`: past the last token this reads the end.
  abbrev pub sval : Tokens → Str
  sval [] = []
  sval (token ∷ rest) = to_lower token

abbrev pub next_token : Tokens → Tokens
next_token [] = []
next_token (token ∷ rest) = rest

unfoldable pub digits_value : ℕ → Str → ℕ
digits_value acc [] = acc
digits_value acc (c ∷ cs) = digits_value (acc * 10 + (c - b'0')) cs

-- From here on a number rounds to more than the largest `double`.
abbrev pub double_limit : ℕ
double_limit = 2 ^ 1024 - 2 ^ 970

-- `nval`: `std::stod` on a token of digits, which fails on an empty one and on a number out of range.
-- The rounding of numbers above 2 ^ 53 is left out.
unfoldable pub nval : Tokens → Result ℕ
unfolding digits_value
nval [] = err thrown
nval ([] ∷ rest) = err thrown
nval ((c ∷ cs) ∷ rest) =
    let n = digits_value 0 (c ∷ cs) in if leb double_limit n then err thrown else ok n

-- The conversion of a `double` that is not negative to an `int`.
abbrev pub cut_to_int : Result ℕ → Result ℕ
cut_to_int (err e) = err e
cut_to_int (ok n) = if ltb n 2_147_483_648 then ok n else err fault
