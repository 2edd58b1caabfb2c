-- ===== src/Vars.antt =====
-- The shell variables (src/var.c). The array `vars` is a list; the pointer that `var_from_name`
-- returns is an index into it. `environ` and `getcwd` belong to the C library: the import takes
-- the strings of the one and the answer of the other as arguments.
mod Table
pub mod Laws
pub mod Unset
pub mod Invariant
pub mod Environ
mod Tests
unfoldable pub use Table.{var_from_name, putvar, getvar, unset_var, export_var}
unfoldable pub use Table.{
  split_at_equal, setup_environ, import_string, import_all, setup_var, find_var,
}
pub use Table.{Var}
