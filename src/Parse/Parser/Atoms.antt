-- ===== src/Parse/Parser/Atoms.antt =====
-- What may stand in a predicate, as tokens and as expressions.
use sample_db.Base.{
  ℕ, suc, ◌+◌, ◌-◌, ◌<◌, ◌≡◌, refl, ap, ◌∙◌, List, [], ◌∷◌, ◌++◌, Str, Bool, true, false, not, ◌&&◌,
  leb, codes, arith, pos, str_eq, nat_eq, length, take, get_elem?, if◌then◌else◌, some,
  length-append, eq_self,
}
use sample_db.Scan.Constant.{int_constant, string_constant}
use sample_db.Scan.Predicate.{Predicate, Expression, constant_expression, field_expression}
use sample_db.Parse.Word
use sample_db.Parse.Word.{keywords, quote, equal_sign}
use sample_db.Parse.StreamTokenizer.{Tokens, all_chars, is_digit, is_alnum, digits_value}
use sample_db.Parse.Lexer.{is_in, last_is, unquote}

-- An upper-case letter.
abbrev pub is_upper : ℕ → Bool
is_upper c = leb b'A' c && leb c b'Z'

-- What is documented of `to_lower_copy`: a text without upper-case letters is not changed.
abbrev pub KeepsLower : (Str → Str) → Type 0
KeepsLower to_lower = (s : Str) → all_chars (λ c. not (is_upper c)) s ≡ true → to_lower s ≡ s

-- A name: lower-case letters and digits, not all digits, and no keyword.
pub record IsName (w : Str) : Type 0 where
  pub lower : all_chars (λ c. not (is_upper c)) w ≡ true
  pub alnum : all_chars is_alnum w ≡ true
  pub some_letter : all_chars is_digit w ≡ false
  pub fresh : is_in w keywords ≡ false

-- What may stand on a side of a term, as it is written.
pub data Atom : Type 0 where
  name : Str → Atom
  number : Str → Atom
  text : Str → Atom
  truth : Bool → Atom

abbrev pub token_of : Atom → Str
token_of (name w) = w
token_of (number d) = d
token_of (text s) = quote ∷ s ++ quote ∷ []
token_of (truth true) = Word.true_word
token_of (truth false) = Word.false_word

abbrev pub meaning_of : Atom → Expression
meaning_of (name w) = field_expression w
meaning_of (number d) = constant_expression (int_constant (pos (digits_value 0 d)))
meaning_of (text s) = constant_expression (string_constant s)
meaning_of (truth true) = constant_expression (int_constant (pos 1))
meaning_of (truth false) = constant_expression (int_constant (pos 0))

-- A text holds no upper-case letter, since the lexer would change it.
abbrev pub AtomIsProper : Atom → Type 0
AtomIsProper (name w) = IsName w
AtomIsProper (number d) =
    (all_chars is_digit d ≡ true) × (0 < length d) × (digits_value 0 d < 2_147_483_648)
AtomIsProper (text s) = all_chars (λ c. not (is_upper c)) (quote ∷ s ++ quote ∷ []) ≡ true
AtomIsProper (truth b) = Unit {0}

abbrev pub AllProper : List (Atom × Atom) → Type 0
AllProper [] = Unit {0}
AllProper ((x, y) ∷ more) = AtomIsProper x × AtomIsProper y × AllProper more

-- The tokens of a predicate, and then others.
abbrev pub print_terms : Atom → Atom → List (Atom × Atom) → Tokens → Tokens
print_terms x y [] r = token_of x ∷ codes "=" ∷ token_of y ∷ r
print_terms x y ((a, b) ∷ more) r =
    token_of x ∷ codes "=" ∷ token_of y ∷ Word.ampersand ∷ print_terms a b more r

abbrev pub terms_of : List (Atom × Atom) → Predicate
terms_of [] = []
terms_of ((x, y) ∷ more) = record { lhs = meaning_of x; rhs = meaning_of y } ∷ terms_of more

pub take-append_length : (s t : Str) → take (length s) (s ++ t) ≡ s
take-append_length [] t = refl
take-append_length (c ∷ s) t = ap (◌∷◌ c) (take-append_length s t)

pub get_elem?-append_length : (s : Str) (c : ℕ) → get_elem? (s ++ c ∷ []) (length s) ≡ some c
get_elem?-append_length [] c = refl
get_elem?-append_length (d ∷ s) c = get_elem?-append_length s c

pub last_is-append : (s : Str) (c : ℕ) → last_is c (quote ∷ s ++ c ∷ []) ≡ true
last_is-append s c =
    let one : length s + 1 ≡ suc (length s) = omega arith in
    let last : suc (suc (length s)) - 1 ≡ suc (length s) = omega arith in
    rw (last_is, length-append s (c ∷ []), one, last, get_elem?-append_length s c) (eq_self c)

pub unquote_body :
    (s : Str)
    → (if leb 2 (suc (suc (length s))) && true && true
        then take (suc (suc (length s)) - 2) (s ++ quote ∷ [])
        else quote ∷ s ++ quote ∷ [])
      ≡ s
unquote_body s =
    let two : leb 2 (suc (suc (length s))) ≡ true = ground arith in
    let less : suc (suc (length s)) - 2 ≡ length s = omega arith in
    rw (two, less) (take-append_length s (quote ∷ []))

pub unquote-quoted : (s : Str) → unquote (quote ∷ s ++ quote ∷ []) ≡ s
unfolding unquote
unquote-quoted s =
    let h : length (s ++ quote ∷ []) ≡ suc (length s) =
      length-append s (quote ∷ []) ∙ (omega arith) in
    rw (h, last_is-append s quote) (unquote_body s)
