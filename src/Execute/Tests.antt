-- ===== src/Execute/Tests.antt =====
-- Runs of the loops (src/execute.c), with a flag as the rest of the state.
use tash.Base.{◌≡◌, refl, Bool, true, false, List, [], ◌∷◌, if◌then◌else◌, Text, codes, arith}
use tash.Builtins.State.{pos, Control, Strtol}
use tash.Builtins.Control.{Effect, builtin_break, builtin_shift}
use tash.World.{finished}
use tash.Execute.Loops.{Run, execute_loop, builtin_command}
use tash.Execute.Tree.{is_leaving}
use tash.Execute.Depths.{Inside, execute_loop-Inside, execute_loop-builtin_break}

abbrev calm : Control
calm = record {
  exit_status = pos 7;
  break_depth = pos 0;
  continue_depth = pos 0;
  loop_depth = 0;
  stack_depth = 0;
  sigint_break = false;
  return_break = false;
  args = [];
}

abbrev no_number : Strtol
no_number t = (pos 0, false)

-- A command that is a builtin, behind the tests at the head of `execute`.
abbrev run_builtin : (List Text → Control → Effect) → List Text → Run Bool
run_builtin builtin args (c, w) =
    if is_leaving c then finished (c, w) else builtin_command builtin args (c, w)

-- `while shift; do break; done` with one parameter.
abbrev shift_once : Run Bool
unfolding builtin_shift
shift_once = run_builtin (builtin_shift no_number) []

abbrev break_once : Run Bool
unfolding builtin_break
break_once = run_builtin (builtin_break no_number) []

shift_once-Inside :
    (c c' : Control) (w w' : Bool)
    → Inside 1 0 c
    → shift_once (c, w) ≡ finished (c', w')
    → Inside 1 0 c'
unfolding builtin_command builtin_shift
shift_once-Inside c c' w w' h e = ground arith

break_once-Inside :
    (c c' : Control) (w w' : Bool)
    → Inside 1 0 c
    → break_once (c, w) ≡ finished (c', w')
    → Inside 1 1 c'
unfolding builtin_command builtin_break
break_once-Inside c c' w w' h e = ground arith

execute_loop-Inside_example : Inside 0 0 (record calm { exit_status = pos 0 })
unfolding execute_loop shift_once builtin_command break_once
execute_loop-Inside_example =
    execute_loop-Inside false shift_once break_once 0 shift_once-Inside break_once-Inside 1
      (record calm { args = codes "a" ∷ [] }) (record calm { exit_status = pos 0 }) false false
      (refl, refl) refl

execute_loop-builtin_break_example :
    execute_loop true (builtin_command (builtin_break no_number) []) shift_once 1 (calm, false)
    ≡ finished (record calm { break_depth = pos 1; exit_status = pos 0 }, false)
execute_loop-builtin_break_example = execute_loop-builtin_break no_number shift_once 0 calm false
