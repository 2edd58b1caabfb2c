-- ===== src/Lexer.antt =====
-- The lexer (src/lexer.c): characters, words, tokens.
pub mod Source
pub mod Token
pub mod Word
pub mod Next
pub mod Putback
pub mod Progress
pub mod Comments
mod Tests
