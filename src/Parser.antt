-- ===== src/Parser.antt =====
-- The parser (src/parser.c): the syntax tree, the state and its operations, and the recursive
-- descent.
pub mod Tree
pub mod State
pub mod Command
pub mod Descent
pub mod Buffer
pub mod Reports
pub mod Streams
pub mod Phrases
pub mod Grammar
pub mod Accepts
pub mod Lines
pub mod Sound
pub mod SoundLines
mod Tests
mod Runs
