-- ===== src/Start/Tests.antt =====
-- Calls of the shell (src/main.c).
use tash.Base.{◌≡◌, refl, true, false, [], ◌∷◌, ◌++◌, codes}
use tash.Start.Options.{scan, run_command, launch}
use tash.Start.Command.{launch-command}

-- tash -i -c exit
launch-command_example :
    launch (codes "tash") ((codes "-i" ∷ []) ++ (codes "-c" ∷ codes "exit" ∷ [])) false
    ≡ run_command (codes "-c") (record { login = false; interactive = true })
unfolding scan
launch-command_example =
    launch-command (codes "tash") (codes "exit") (codes "-i" ∷ []) [] false
      (record { login = false; interactive = true }) refl
