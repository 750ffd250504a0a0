-- ===== src/Parse/Word.antt =====
-- parse/Word.cpp: the delimiters and the keywords.
use sample_db.Base.{ℕ, List, [], ◌∷◌, Str, codes}

abbrev pub equal_sign : ℕ
equal_sign = b'='

abbrev pub comma : ℕ
comma = b','

abbrev pub left_paren : ℕ
left_paren = b'('

abbrev pub right_paren : ℕ
right_paren = b')'

-- The single quote.
abbrev pub quote : ℕ
quote = 39

abbrev pub ampersand : Str
ampersand = codes "and"

abbrev pub select : Str
select = codes "select"

abbrev pub from : Str
from = codes "from"

abbrev pub where_word : Str
where_word = codes "where"

abbrev pub insert : Str
insert = codes "insert"

abbrev pub delete : Str
delete = codes "delete"

abbrev pub update : Str
update = codes "update"

abbrev pub table : Str
table = codes "table"

abbrev pub view : Str
view = codes "view"

abbrev pub index : Str
index = codes "index"

abbrev pub create : Str
create = codes "create"

abbrev pub set_word : Str
set_word = codes "set"

abbrev pub as_word : Str
as_word = codes "as"

abbrev pub on : Str
on = codes "on"

abbrev pub into : Str
into = codes "into"

abbrev pub order : Str
order = codes "order"

abbrev pub group : Str
group = codes "group"

abbrev pub by : Str
by = codes "by"

abbrev pub int : Str
int = codes "int"

abbrev pub varchar : Str
varchar = codes "varchar"

abbrev pub bool : Str
bool = codes "bool"

abbrev pub true_word : Str
true_word = codes "true"

abbrev pub false_word : Str
false_word = codes "false"

abbrev pub values : Str
values = codes "values"

-- The words that the lexer takes for no identifier.
abbrev pub keywords : List Str
keywords =
    select ∷ from ∷ where_word ∷ ampersand ∷ insert ∷ into ∷ values ∷ delete ∷ update ∷ set_word
    ∷ create ∷ table ∷ varchar ∷ int ∷ bool ∷ true_word ∷ false_word ∷ view ∷ as_word ∷ index ∷ on
    ∷ []

abbrev pub max : Str
max = codes "max"

abbrev pub min : Str
min = codes "min"

abbrev pub count : Str
count = codes "count"

abbrev pub sum : Str
sum = codes "sum"
