-- ===== src/Expand.antt =====
-- Word expansion (src/expand.c) and file name generation (src/globing.c).
pub mod Quoting
pub mod Trim
pub mod Shell
pub mod Param
pub mod Command
pub mod Word
pub mod Files
pub mod Split
pub mod Marks
pub mod Quoted
pub mod SingleQuotes
pub mod TrimLaws
mod Tests
