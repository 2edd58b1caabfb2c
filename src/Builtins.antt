-- ===== src/Builtins.antt =====
-- The builtins that change the shell's control state and its tables (src/builtin.c).
pub mod State
pub mod Control
pub mod Options
pub mod Laws
pub mod Tables
pub mod TableLaws
pub mod Process
pub mod Dispatch
pub mod Depth
mod Tests
