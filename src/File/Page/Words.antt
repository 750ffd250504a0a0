-- ===== src/File/Page/Words.antt =====
-- The four bytes of an `int`.
use sample_db.Base.{
  ℕ, ◌+◌, ◌-◌, ◌*◌, ◌/◌, ◌%◌, ◌<◌, ◌≡◌, refl, List, [], ◌∷◌, ℤ, pos, negsuc, arith, ltb,
  if◌then◌else◌, length, ap, ◌∙◌,
}

abbrev pub word_mod : ℕ
word_mod = 4_294_967_296

abbrev pub half_mod : ℕ
half_mod = 2_147_483_648

-- The range of a 32-bit `int`.
abbrev pub InInt32 : ℤ → Type 0
InInt32 (pos n) = n < half_mod
InInt32 (negsuc n) = n < half_mod

unfoldable pub to_word : ℤ → ℕ
to_word (pos n) = n % word_mod
to_word (negsuc n) = word_mod - 1 - n % word_mod

unfoldable pub of_word : ℕ → ℤ
of_word w = if ltb w half_mod then pos w else negsuc (word_mod - 1 - w)

abbrev pub le_bytes : ℕ → List ℕ
le_bytes w = (w % 256) ∷ (w / 256 % 256) ∷ (w / 65_536 % 256) ∷ (w / 16_777_216 % 256) ∷ []

-- Bytes least significant first.
unfoldable pub le_value : List ℕ → ℕ
le_value [] = 0
le_value (b ∷ bs) = b + 256 * le_value bs

unfoldable pub encode_int : ℤ → List ℕ
unfolding to_word
encode_int n = le_bytes (to_word n)

unfoldable pub decode_int : List ℕ → ℤ
unfolding le_value of_word
decode_int bs = of_word (le_value bs)

pub of_word-to_word : (n : ℤ) → InInt32 n → of_word (to_word n) ≡ n
unfolding of_word to_word
of_word-to_word (pos n) h = ground arith
of_word-to_word (negsuc n) h = ground arith

le_value-le_bytes : (w : ℕ) → w < word_mod → le_value (le_bytes w) ≡ w
unfolding le_value
le_value-le_bytes w h = omega arith

to_word-lt : (n : ℤ) → to_word n < word_mod
unfolding to_word
to_word-lt (pos n) = omega arith
to_word-lt (negsuc n) = omega arith

-- Every 32-bit integer is read back from its bytes.
pub decode-encode : (n : ℤ) → InInt32 n → decode_int (encode_int n) ≡ n
decode-encode n h =
    unfold decode_int encode_int in
    ap of_word (le_value-le_bytes (to_word n) (to_word-lt n)) ∙ of_word-to_word n h

pub length-encode : (n : ℤ) → length (encode_int n) ≡ 4
unfolding encode_int
length-encode n = refl
