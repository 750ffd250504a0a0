-- ===== src/Record/Schema.antt =====
-- record/Schema.cpp and record/FieldInfo.cpp: the fields of a table.
pub mod Adds
use sample_db.Base.{
  ℕ, ◌≡◌, List, [], ◌∷◌, ◌++◌, Bool, true, false, Option, none, some, Str, str_eq, Result, ok, err,
  thrown, ◌>>=◌, find, put, of_option,
}

pub record FieldInfo : Type 0 where
  pub type : ℕ
  pub length : ℕ

pub record Schema : Type 0 where
  pub fields : List Str
  pub field_info : List (Str × FieldInfo)

-- INTEGER, VARCHAR, BOOLEAN.
abbrev pub integer : ℕ
integer = 0

abbrev pub varchar : ℕ
varchar = 1

abbrev pub boolean : ℕ
boolean = 2

abbrev pub empty_schema : Schema
empty_schema = record { fields = []; field_info = [] }

-- `addField`: a name that is there already is listed again.
unfoldable pub add_field : Schema → Str → ℕ → ℕ → Schema
unfolding put
add_field s name type length = record {
  fields = s.fields ++ name ∷ [];
  field_info = put name (record { type = type; length = length }) s.field_info;
}

abbrev pub add_int_field : Schema → Str → Schema
add_int_field s name = add_field s name integer 0

abbrev pub add_string_field : Schema → Str → ℕ → Schema
add_string_field s name length = add_field s name varchar length

abbrev pub add_bool_field : Schema → Str → Schema
add_bool_field s name = add_field s name boolean 0

abbrev pub is_some {ℓ} : {A : Type ℓ} → Option A → Bool
is_some none = false
is_some (some a) = true

unfoldable pub has_field : Schema → Str → Bool
unfolding find
has_field s name = is_some (find name s.field_info)

-- `fieldType` and `fieldLength`: a missing field throws.
unfoldable pub field_type : Schema → Str → Result ℕ
unfolding find
field_type s name = do info ← of_option (find name s.field_info) thrown; ok info.type

unfoldable pub field_length : Schema → Str → Result ℕ
unfolding find
field_length s name = do info ← of_option (find name s.field_info) thrown; ok info.length

-- `add`: a field of another schema.
unfoldable pub add : Schema → Str → Schema → Result Schema
unfolding field_type field_length add_field
add s name other = do
  type ← field_type other name
  length ← field_length other name
  ok (add_field s name type length)

-- The loop of `addAll`.
unfoldable pub add_names : List Str → Schema → Schema → Result Schema
unfolding add
add_names [] s other = ok s
add_names (name ∷ names) s other = do s' ← add s name other; add_names names s' other

abbrev pub add_all : Schema → Schema → Result Schema
add_all s other = add_names other.fields s other
