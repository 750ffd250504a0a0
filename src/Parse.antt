-- ===== src/Parse.antt =====
-- parse/: the tokenizer, the lexer and the recursive-descent parser of SQL.
pub mod Word
pub mod StreamTokenizer
pub mod Lexer
pub mod Data
pub mod Parser
