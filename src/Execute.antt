-- ===== src/Execute.antt =====
-- The execution of trees (src/execute.c).
pub mod Redirect
pub mod Loops
pub mod Restore
pub mod Programs
pub mod Commands
pub mod Compound
pub mod Pipes
pub mod Tree
pub mod Forked
pub mod Balance
pub mod Samples
pub mod Depths
mod Tests
mod Runs
