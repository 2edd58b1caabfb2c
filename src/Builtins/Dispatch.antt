-- ===== src/Builtins/Dispatch.antt =====
-- `try_builtin` and the table `builtin` (src/builtin.c).
use tash.Base.{ℕ, Option, none, some, List, [], ◌∷◌, if◌then◌else◌, Text, codes, same_text}
use tash.Builtins.State.{pos, negsuc, Control}
use tash.Builtins.Control.{Effect, builtin_break, builtin_continue, builtin_return, builtin_shift}
use tash.Builtins.Options.{builtin_set}
use tash.Builtins.Tables.{Tables, builtin_export, builtin_unset}
use tash.Builtins.Process.{
  Result, builtin_exit, builtin_cd, builtin_src, builtin_echo, builtin_eval, builtin_wait,
  builtin_kill,
}
use tash.System.{System}
use tash.World.{Ended, finished, World}

abbrev pub on_control : (List Text → Control → Effect) → List Text → World → Result
on_control builtin args (c, r) = let (c', n) = builtin args c in finished (n, (c', r))

abbrev pub on_tables : (List Text → Tables → Tables × ℕ) → List Text → World → Result
on_tables builtin args (c, r) =
    let (tables, n) = builtin args r.tables in finished (pos n, (c, record r { tables = tables }))

abbrev pub on_settings : List Text → World → Result
on_settings args (c, r) =
    let (st, n) = builtin_set args (record { flags = r.flags; args = c.args }) in
    finished (pos n, (record c { args = st.args }, record r { flags = st.flags }))

abbrev pub always : ℕ → List Text → World → Result
always n args w = finished (pos n, w)

pub record Builtin : Type 0 where
  pub name : Text
  pub handler : List Text → World → Result

unfoldable pub find_builtin : Text → List Builtin → Option Builtin
find_builtin name [] = none
find_builtin name (b ∷ bs) = if same_text name b.name then some b else find_builtin name bs

abbrev pub handler_of : Option Builtin → List Text → World → Result
handler_of none args w = finished (negsuc 0, w)
handler_of (some b) args w = b.handler args w

-- `interpret` runs a text; `f` are the rounds that `wait` is given.
module _ (sys : System) (interpret : Text → World → Ended World) (f : ℕ) where
  abbrev pub row : Text → (List Text → World → Result) → Builtin
  row name handler = record { name = name; handler = handler }

  unfoldable pub builtins : List Builtin
  unfolding builtin_exit builtin_cd builtin_src builtin_echo builtin_eval builtin_wait builtin_kill
  builtins =
      row (codes "cd") (builtin_cd sys)
      ∷ row (codes "exit") (builtin_exit sys)
      ∷ row (codes "export") (on_tables builtin_export)
      ∷ row (codes "source") (builtin_src sys interpret)
      ∷ row (codes ".") (builtin_src sys interpret)
      ∷ row (codes "set") on_settings
      ∷ row (codes "echo") (builtin_echo sys)
      ∷ row (codes "eval") (builtin_eval sys interpret)
      ∷ row (codes ":") (always 0)
      ∷ row (codes "true") (always 0)
      ∷ row (codes "false") (always 1)
      ∷ row (codes "break") (on_control (builtin_break sys.strtol))
      ∷ row (codes "continue") (on_control (builtin_continue sys.strtol))
      ∷ row (codes "wait") (builtin_wait sys f)
      ∷ row (codes "return") (on_control (builtin_return sys.strtol))
      ∷ row (codes "shift") (on_control (builtin_shift sys.strtol))
      ∷ row (codes "unset") (on_tables builtin_unset)
      ∷ row (codes "kill") (builtin_kill sys)
      ∷ []

  -- -1 where there is no such builtin.
  unfoldable pub try_builtin : Text → List Text → World → Result
  unfolding builtins find_builtin
  try_builtin name args w = handler_of (find_builtin name builtins) args w
