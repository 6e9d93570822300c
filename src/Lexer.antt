-- ===== src/Lexer.antt =====
-- src/lexer.h and src/lexer.cpp: from the text of a query to its tokens.
pub mod Token
pub mod Cursor
pub mod Words
pub mod Literals
pub mod Operators
pub mod Tokenize
pub mod Reads
pub mod ReadsWord
pub mod ReadsLiteral
pub mod Total
pub mod Quote
pub mod Keywords
