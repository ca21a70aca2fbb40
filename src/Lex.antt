-- ===== src/Lex.antt =====
-- src/lex: positions, characters, tokens and the tokenizer.
pub mod Span
pub mod TextIter
pub mod Token
pub mod Tokens
pub mod Tokenizer
pub mod Tests
