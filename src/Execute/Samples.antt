-- ===== src/Execute/Samples.antt =====
-- A concrete system and a fresh shell, for the runs and the witnesses.
use tash.Base.{◌+◌, ◌-◌, true, false, none, [], ◌∷◌, Text}
use tash.Builtins.State.{ℤ, pos, negsuc, Control, Strtol}
use tash.Builtins.Options.{no_flags}
use tash.System.{System, Call, save_above, fork_process, exit_with}
use tash.World.{Rest}

-- A `strtol` that reads one digit.
abbrev pub digit : Strtol
digit [] = (pos 0, false)
digit (c ∷ []) = (pos (c - b'0'), true)
digit (c ∷ _ ∷ _) = (pos (c - b'0'), false)

abbrev digit_text : ℤ → Text
digit_text (pos n) = (b'0' + n) ∷ []
digit_text (negsuc n) = b'-' ∷ []

-- Calls succeed, with a fresh descriptor or pid where one is due; there are no programs.
abbrev answers : Call → ℤ
answers (save_above fd) = pos 10
answers fork_process = pos 77
answers _ = pos 3

abbrev pub plain_system : System
plain_system = record {
  answer = λ history call. answers call;
  pipe_ends = λ history. (pos 5, pos 6);
  program = λ history args environ. none;
  killed_by = λ history. none;
  status_of = λ history. exit_with 0;
  reads = λ history. [];
  files = λ history pattern. [];
  contents = λ history path. [];
  directory = λ history. none;
  strtol = digit;
  converts = λ t. true;
  number = digit_text;
}

abbrev pub calm : Control
calm = record {
  exit_status = pos 7;
  break_depth = pos 0;
  continue_depth = pos 0;
  loop_depth = 0;
  stack_depth = 0;
  sigint_break = false;
  return_break = false;
  args = [];
}

abbrev pub idle : Rest
idle = record {
  tables = record { vars = []; funcs = [] };
  flags = no_flags;
  interactive = false;
  argv0 = [];
  shell_pid = pos 50;
  last_background = pos 0;
  stolen = [];
  roots = 0;
  history = [];
}
