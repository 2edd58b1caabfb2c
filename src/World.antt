-- ===== src/World.antt =====
-- The whole state of the shell, and how a run ends (the globals of src/execute.c, src/main.c,
-- src/var.c and src/func.c together).
use tash.Base.{ℕ, Bool, Option, none, some, List, ◌∷◌, Text}
use tash.Builtins.State.{ℤ, Control}
use tash.Builtins.Options.{Flags}
use tash.Builtins.Tables.{Tables}
use tash.System.{Call, History, System}
use tash.Expand.Shell.{Shell, Expanded, ok, expansion_error}

-- `finished` comes back to the caller; `exited` is the end of the process, with its code and the
-- calls up to there; `crashed` a read through NULL; `stuck` a run that has not ended within the
-- fuel; `runaway` a child that came back into code that only its parent should go on with.
pub data Ended {ℓ} (A : Type ℓ) : Type ℓ where
  finished : A → Ended A
  exited : ℤ → History → Ended A
  crashed stuck runaway : Ended A

module _ {ℓ κ} {A : Type ℓ} {B : Type κ} where
  infixl 1 ◌>>=◌
  abbrev pub ◌>>=◌ : Ended A → (A → Ended B) → Ended B
  finished a >>= k = k a
  exited n h >>= k = exited n h
  crashed >>= k = crashed
  stuck >>= k = stuck
  runaway >>= k = runaway

-- The state but for the control state. `interactive` is TASH_INTERACTIVE; `stolen` are the places
-- of the function definitions that were run, whose bodies are gone; `roots` counts the trees.
pub record Rest : Type 0 where
  pub tables : Tables
  pub flags : Flags
  pub interactive : Bool
  pub argv0 : Text
  pub shell_pid : ℤ
  pub last_background : ℤ
  pub stolen : List (List ℕ)
  pub roots : ℕ
  pub history : History

abbrev pub World : Type 0
World = Control × Rest

-- A system call: its value, and the state with the call recorded.
unfoldable pub perform : System → Call → World → ℤ × World
perform sys call (c, r) = (sys.answer r.history call, (c, record r { history = call ∷ r.history }))

-- A system call whose value does not matter.
unfoldable pub record_call : Call → World → World
record_call call (c, r) = (c, record r { history = call ∷ r.history })

abbrev pub set_status : ℤ → World → World
set_status n (c, r) = (record c { exit_status = n }, r)

-- What the expansion sees of the state, and what it changes.
unfoldable pub shell_of : World → Shell
shell_of (c, r) = record {
  vars = r.tables.vars;
  args = c.args;
  argv0 = r.argv0;
  exit_status = c.exit_status;
  shell_pid = r.shell_pid;
  last_background = r.last_background;
  unset_exit = r.flags.unset_exit;
  no_globing = r.flags.no_globing;
  sigint_break = c.sigint_break;
  history = r.history;
}

unfoldable pub with_shell : Shell → World → World
with_shell sh (c, r) = (
  record c { exit_status = sh.exit_status; sigint_break = sh.sigint_break },
  record r { tables = record r.tables { vars = sh.vars }; history = sh.history },
)

-- An expansion that fails gives NULL.
unfoldable pub of_expanded {ℓ} : {A : Type ℓ} → World → Expanded A → Ended (Option A × World)
unfolding with_shell
of_expanded w (ok a sh) = finished (some a, with_shell sh w)
of_expanded w (expansion_error sh) = finished (none, with_shell sh w)
of_expanded w Expanded.crashed = crashed
of_expanded w Expanded.stuck = stuck
of_expanded w Expanded.runaway = runaway
