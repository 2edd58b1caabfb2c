-- ===== src/Glob.antt =====
-- Pattern matching (`glob_match` of src/globing.c) on NUL-free byte strings.
pub mod Pattern
pub mod Match
pub mod Switch
pub mod Decides
mod Tests
