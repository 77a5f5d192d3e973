-- ===== src/Json.antt =====
-- src/json.c and include/json.h: the JSON writer, and the tokenizer with its accessors.
pub mod Writer
pub mod Lexer
pub mod Reader
