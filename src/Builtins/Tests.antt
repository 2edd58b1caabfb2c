-- ===== src/Builtins/Tests.antt =====
-- The builtins (src/builtin.c) on small states.
use tash.Base.{All, none, ◌-◌, ◌≡◌, refl, true, false, [], ◌∷◌, codes, arith}
use tash.Builtins.State.{pos, exceeds, Control, Strtol}
use tash.Builtins.Control.{builtin_break}
use tash.Builtins.Options.{no_flags, Settings, set_flags, builtin_set}
use tash.Builtins.Laws.{builtin_set-Keeps, builtin_break-clamps}
use tash.Vars.{Var, find_var}
use tash.Vars.Laws.{is_exported}
use tash.Builtins.Tables.{Tables, builtin_export, builtin_unset}
use tash.Builtins.TableLaws.{target, builtin_export-marks, builtin_unset-variables}

-- A `strtol` that reads one digit.
abbrev digit : Strtol
digit [] = (pos 0, false)
digit (c ∷ []) = (pos (c - b'0'), true)
digit (c ∷ _ ∷ _) = (pos (c - b'0'), false)

abbrev in_loop : Control
in_loop = record {
  exit_status = pos 0;
  break_depth = pos 0;
  continue_depth = pos 0;
  loop_depth = 2;
  stack_depth = 0;
  sigint_break = false;
  return_break = false;
  args = codes "a" ∷ codes "b" ∷ codes "c" ∷ codes "d" ∷ [];
}

abbrev settings : Settings
settings = record { flags = record no_flags { err_exit = true }; args = [] }

builtin_set-Keeps_example :
    set_flags settings.flags (builtin_set (codes "-u" ∷ codes "+e" ∷ []) settings).0.flags
    ≡ (builtin_set (codes "-u" ∷ codes "+e" ∷ []) settings).0.flags
builtin_set-Keeps_example = builtin_set-Keeps (codes "-u" ∷ codes "+e" ∷ []) settings

builtin_break-clamps_example :
    exceeds (builtin_break digit (codes "9" ∷ []) in_loop).0.break_depth 2 ≡ false
unfolding builtin_break
builtin_break-clamps_example =
    builtin_break-clamps digit (codes "9" ∷ []) in_loop (omega arith) refl

abbrev home : Var
home = record { name = codes "HOME"; value = codes "/"; exported = false }

abbrev tables : Tables
tables = record { vars = home ∷ []; funcs = [] }

builtin_export-marks_example :
    All
      (λ arg.
        is_exported
          (find_var (target arg) (builtin_export (codes "n=1" ∷ codes "HOME" ∷ []) tables).0.vars)
        ≡ true)
      (codes "n=1" ∷ codes "HOME" ∷ [])
builtin_export-marks_example = builtin_export-marks (codes "n=1") (codes "HOME" ∷ []) tables refl

builtin_unset-variables_example :
    (find_var
        (codes "n")
        (builtin_unset (codes "-v" ∷ codes "--" ∷ codes "HOME" ∷ []) tables).0.vars
      ≡ none)
    × ((builtin_unset (codes "-v" ∷ codes "--" ∷ codes "HOME" ∷ []) tables).0.funcs ≡ [])
unfolding find_var
builtin_unset-variables_example =
    builtin_unset-variables (codes "n") (codes "HOME" ∷ []) tables (tt, tt)
