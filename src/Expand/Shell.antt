-- ===== src/Expand/Shell.antt =====
-- What the expansion reads and writes of the shell, and how it ends (src/expand.c).
use tash.Base.{Bool, List, Text}
use tash.Builtins.State.{ℤ}
use tash.System.{History}
use tash.Vars.{Var}

-- The globals: the variables, `_argc` and `_argv` as a list, `_argv0`, `exit_status`, `shell_pid`,
-- `last_background`, of `flags` the bits TASH_UNSET_EXIT and TASH_NO_GLOBING,
-- `sigint_break`, and the system calls so far.
pub record Shell : Type 0 where
  pub vars : List Var
  pub args : List Text
  pub argv0 : Text
  pub exit_status : ℤ
  pub shell_pid : ℤ
  pub last_background : ℤ
  pub unset_exit : Bool
  pub no_globing : Bool
  pub sigint_break : Bool
  pub history : History

-- `expansion_error` is a return of -1 or NULL behind a message; `crashed` a read through NULL or
-- past the end of a string; `stuck` a call that has not returned within the fuel;
-- `runaway` a child of a command substitution that came back into the code of the shell.
pub data Expanded {ℓ} (A : Type ℓ) : Type ℓ where
  ok : A → Shell → Expanded A
  expansion_error : Shell → Expanded A
  crashed stuck runaway : Expanded A

module _ {ℓ κ} {A : Type ℓ} {B : Type κ} where
  infixl 1 ◌>>=◌
  abbrev pub ◌>>=◌ : Expanded A → (A → Shell → Expanded B) → Expanded B
  ok a s >>= k = k a s
  expansion_error s >>= k = expansion_error s
  crashed >>= k = crashed
  stuck >>= k = stuck
  runaway >>= k = runaway
